-- ===== src/Protocol/Samples.antt =====
-- Codecs of a few values, for the tests: one list of endpoints, and handshakes without alternatives
-- with their fields in a row, and messages.
use factom_p2p.Prelude.{
  ℕ, ◌≡◌, refl, arith, Option, none, some, List, [], ◌∷◌, ◌==◌, if◌then◌else◌, Bool-cases, inl, inr,
}
use factom_p2p.Net.{bytes}
use factom_p2p.Endpoint.{Endpoint, equal, equal_iff}
use factom_p2p.Protocol.Codec.{Codec}
use factom_p2p.Protocol.V11.{V11Endpoint, V11Handshake, V11Msg, V11Share}

abbrev pub at_a : Endpoint
at_a = record { ip = bytes "a"; port = bytes "1" }

-- It marshals the list of at_a as "a", and no other list.
abbrev pub marshal_one : List Endpoint → Option (List ℕ)
marshal_one [] = none
marshal_one (ep ∷ []) = if equal ep at_a then some (bytes "a") else none
marshal_one (ep ∷ eq ∷ eps) = none

abbrev pub unmarshal_one : List ℕ → Option (List Endpoint)
unmarshal_one [] = none
unmarshal_one (n ∷ []) = if n == b'a' then some (at_a ∷ []) else none
unmarshal_one (n ∷ m ∷ text) = none

pub unmarshal-marshal_one :
    (eps : List Endpoint) (text : List ℕ)
    → marshal_one eps ≡ some text
    → unmarshal_one text ≡ some eps
unmarshal-marshal_one [] text h = ground (arith, h)
unmarshal-marshal_one (ep ∷ []) text h = elim (Bool-cases (equal ep at_a)) [
  | inl same ↦
      let e : ep ≡ at_a = (equal_iff ep at_a).0 same in
      let t : text ≡ bytes "a" = ground (arith, h) in rw (e, t) refl
  | inr other ↦ ground (arith, h)
]
unmarshal-marshal_one (ep ∷ eq ∷ eps) text h = ground (arith, h)

abbrev pub json : Codec (List Endpoint)
json = record {
  marshal = marshal_one;
  unmarshal = unmarshal_one;
  unmarshal-marshal = unmarshal-marshal_one;
}

-- Handshakes without alternatives, the port at the end.
abbrev pub marshal_row : V11Handshake → List V11Endpoint → Option (List ℕ)
marshal_row h [] = some (h.type ∷ h.network ∷ h.version ∷ h.node_id ∷ h.loopback ∷ h.listen_port)
marshal_row h (ep ∷ eps) = none

abbrev pub unmarshal_row : List ℕ → Option V11Handshake
unmarshal_row (a ∷ b ∷ c ∷ d ∷ e ∷ port) = some (record {
  type = a;
  network = b;
  version = c;
  node_id = d;
  listen_port = port;
  loopback = e;
  alternatives = [];
})
unmarshal_row _ = none

pub unmarshal-marshal_row :
    (h : V11Handshake) (alternatives : List V11Endpoint) (text : List ℕ)
    → marshal_row h alternatives ≡ some text
    → unmarshal_row text ≡ some (record h { alternatives = alternatives })
unmarshal-marshal_row h [] text e =
    let t : text ≡ h.type ∷ h.network ∷ h.version ∷ h.node_id ∷ h.loopback ∷ h.listen_port = cc in
    rw t refl
unmarshal-marshal_row h (ep ∷ eps) text e = ground (arith, e)

abbrev pub handshakes : Codec V11Handshake
handshakes = record {
  marshal = λ h. marshal_row h h.alternatives;
  unmarshal = unmarshal_row;
  unmarshal-marshal = λ h text e. unmarshal-marshal_row h h.alternatives text e;
}

-- Messages, the type before the payload.
abbrev pub unmarshal_msg : List ℕ → Option V11Msg
unmarshal_msg [] = none
unmarshal_msg (t ∷ payload) = some (record { type = t; payload = payload })

pub unmarshal-marshal_msg :
    (m : V11Msg) (text : List ℕ)
    → some (m.type ∷ m.payload) ≡ some text
    → unmarshal_msg text ≡ some m
unmarshal-marshal_msg m text h = let t : text ≡ m.type ∷ m.payload = cc in rw t refl

abbrev pub messages : Codec V11Msg
messages = record {
  marshal = λ m. some (m.type ∷ m.payload);
  unmarshal = unmarshal_msg;
  unmarshal-marshal = unmarshal-marshal_msg;
}

-- No share can be marshalled.
pub nothing_marshalled : (s : V11Share) (text : List ℕ) → none ≡ some text → none ≡ some s
nothing_marshalled s text h = ground (arith, h)

abbrev pub shares : Codec V11Share
shares = record {
  marshal = λ s. none;
  unmarshal = λ text. none;
  unmarshal-marshal = nothing_marshalled;
}
