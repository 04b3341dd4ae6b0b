-- ===== src/Protocol/V9/Handshakes.antt =====
-- Handshakes over version 9.
use native.Mathlib.Nat.{pow-suc}
use factom_p2p.Prelude.{
  ℕ, zero, suc, ◌*◌, ◌/◌, ◌^◌, ◌<◌, ◌≡◌, ◌≢◌, ◌⊎◌, ◌↔◌, refl, sym, ap, Option-cases, inl, inr, none,
  some, List, [], ◌∷◌, length, arith, ◌==◌, if◌then◌else◌,
}
use factom_p2p.Endpoint.{Endpoint}
use factom_p2p.Parcel.{type_handshake, type_peer_request, type_reject_alternative}
use factom_p2p.Handshake.{Handshake}
use factom_p2p.Protocol.Codec.{Codec}
use factom_p2p.Protocol.V9.{
  V9Msg, ok, err, json_error, put_little_endian, little_endian, handshake_payload,
  v9_send_handshake, send_handshake, make_msg, read_handshake_msg, read_handshake, handshake_of,
}

length-put_little_endian : (n v : ℕ) → length (put_little_endian n v) ≡ n
unfolding put_little_endian
length-put_little_endian zero v = refl
length-put_little_endian (suc n) v = omega (arith, length-put_little_endian n (v / 256))

little_endian-put : (n v : ℕ) → v < 256 ^ n → little_endian (put_little_endian n v) ≡ v
unfolding little_endian put_little_endian
little_endian-put zero v h = omega arith
little_endian-put (suc n) v h =
    let e : 256 ^ suc n ≡ 256 ^ n * 256 = pow-suc 256 n in
    omega (arith, little_endian-put n (v / 256) (omega (arith, e)))

-- The type that SendHandshake puts on the wire.
abbrev pub wire_type : Handshake → ℕ
wire_type h = if h.type == type_handshake then type_peer_request else h.type

-- What SendHandshake hands to the encoder.
abbrev handshake_msg : Handshake → List ℕ → V9Msg
handshake_msg h payload =
    make_msg h.network h.version (wire_type h) [] h.node_id h.listen_port payload

module _ (json : Codec (List Endpoint)) where
  sent_loopback :
      (h : Handshake)
      → h.alternatives ≡ []
      → (send_handshake json h).1 ≡ some (handshake_msg h (put_little_endian 8 h.loopback))
  unfolding send_handshake v9_send_handshake handshake_payload
  sent_loopback h a = rw (a, handshake_payload) refl

  sent_alternatives :
      (h : Handshake) (ep : Endpoint) (eps : List Endpoint) (text : List ℕ)
      → h.alternatives ≡ ep ∷ eps
      → json.marshal h.alternatives ≡ some text
      → (send_handshake json h).1 ≡ some (handshake_msg h text)
  unfolding send_handshake v9_send_handshake handshake_payload
  sent_alternatives h ep eps text a m = ground (arith, m, a)

  -- Without a change of the type, as version 10 sends it.
  pub read-v9_send_handshake :
      (h : Handshake)
      → h.alternatives ≡ []
      → h.type ≢ type_reject_alternative
      → h.node_id < 2 ^ 32
      → h.loopback < 2 ^ 64
      → (msg : V9Msg) × (v9_send_handshake json h ≡ some msg)
        × (read_handshake json (some msg) ≡ ok h)
  unfolding v9_send_handshake handshake_payload read_handshake read_handshake_msg handshake_of
      make_msg
  read-v9_send_handshake h a t n l = (
    make_msg h.network h.version h.type [] h.node_id h.listen_port (put_little_endian 8 h.loopback),
    rw (a, handshake_payload) refl,
    ground (
      arith,
      length-put_little_endian 8 h.loopback,
      little_endian-put 8 h.loopback (omega arith),
      a,
    ),
  )

  -- A handshake that is no rejection and has no alternatives is sent, and arrives as it was, but
  -- with the type of a peer request in place of that of a handshake, if its node id fits 32 bits
  -- and its loopback value 64.
  pub read-send_handshake :
      (h : Handshake)
      → h.alternatives ≡ []
      → h.type ≢ type_reject_alternative
      → h.node_id < 2 ^ 32
      → h.loopback < 2 ^ 64
      → (msg : V9Msg) × ((send_handshake json h).1 ≡ some msg)
        × (read_handshake json (some msg) ≡ ok (record h { type = wire_type h }))
  unfolding read_handshake read_handshake_msg handshake_of make_msg
  read-send_handshake h a t n l = (
    handshake_msg h (put_little_endian 8 h.loopback),
    sent_loopback h a,
    ground (
      arith,
      length-put_little_endian 8 h.loopback,
      little_endian-put 8 h.loopback (omega arith),
    ),
  )

  -- A rejection with alternatives that Marshal takes is sent, and arrives with them, and without
  -- its loopback value.
  pub read-send_rejection :
      (h : Handshake) (ep : Endpoint) (eps : List Endpoint) (text : List ℕ)
      → h.alternatives ≡ ep ∷ eps
      → json.marshal h.alternatives ≡ some text
      → h.type ≡ type_reject_alternative
      → h.node_id < 2 ^ 32
      → (msg : V9Msg) × ((send_handshake json h).1 ≡ some msg)
        × (read_handshake json (some msg) ≡ ok (record h { loopback = 0 }))
  unfolding read_handshake read_handshake_msg handshake_of make_msg
  read-send_rejection h ep eps text a m t n = (
    handshake_msg h text,
    sent_alternatives h ep eps text a m,
    ground (arith, json.unmarshal-marshal h.alternatives text m),
  )

  read-send_empty :
      (h : Handshake)
      → h.alternatives ≡ []
      → h.type ≡ type_reject_alternative
      → json.unmarshal (put_little_endian 8 h.loopback) ≡ none
      → (msg : V9Msg) × ((send_handshake json h).1 ≡ some msg)
        × (read_handshake json (some msg) ≡ err json_error)
  unfolding read_handshake read_handshake_msg make_msg
  read-send_empty h a t u =
      (handshake_msg h (put_little_endian 8 h.loopback), sent_loopback h a, ground (arith, u))

  -- The payload of a loopback value of 0 is eight zero bytes.
  zero_bytes : (bs : List ℕ) × (put_little_endian 8 0 ≡ 0 ∷ bs)
  unfolding put_little_endian
  zero_bytes = (_, refl)

  -- Whether the receiver of a rejection has the alternatives.
  abbrev pub Readable : Handshake → Type 0
  Readable h =
      (msg : V9Msg) × ((send_handshake json h).1 ≡ some msg)
      × ((read_handshake json (some msg) ≡ ok h) ↔ (h.alternatives ≢ []))
      × ((read_handshake json (some msg) ≡ err json_error) ↔ (h.alternatives ≡ []))

  -- A rejection as RejectWithShare makes it, with a loopback value of 0, is sent if Marshal takes
  -- the alternatives that it may have, and is read as it was exactly if it has some; one without
  -- alternatives is an error for its receiver, who takes eight zero bytes for JSON, as no JSON text
  -- begins with a zero byte.
  pub read-send_rejection_iff :
      (h : Handshake)
      → h.type ≡ type_reject_alternative
      → h.loopback ≡ 0
      → h.node_id < 2 ^ 32
      → (h.alternatives ≡ []) ⊎ (json.marshal h.alternatives ≢ none)
      → ((bs : List ℕ) → json.unmarshal (0 ∷ bs) ≡ none)
      → Readable h
  read-send_rejection_iff h t l n m refuses = go h.alternatives refl
    where
      none_left :
          {ep : Endpoint} {eps : List Endpoint}
          → (h.alternatives ≡ []) ⊎ (json.marshal h.alternatives ≢ none)
          → h.alternatives ≡ ep ∷ eps
          → json.marshal h.alternatives ≡ none
          → ⊥
      none_left (inl a) e f = cc
      none_left (inr b) e f = b f

      go : (alternatives : List Endpoint) → h.alternatives ≡ alternatives → Readable h
      go [] e =
          let (bs, zeroes) = zero_bytes in
          let (msg, s, r) = read-send_empty h e t (rw (l, zeroes) (refuses bs)) in
          (msg, s, (λ k. cc (k, r), λ k. absurd (k e)), (λ k. e, λ k. r))
      go (ep ∷ eps) e = elim (Option-cases (json.marshal h.alternatives)) [
        | inl none_text ↦ absurd (none_left m e none_text)
        | inr (text, marshals) ↦
            let same : record h { loopback = 0 } ≡ h =
              ap (λ x. record h { loopback = x }) (sym l) in
            let (msg, s, r) = read-send_rejection h ep eps text e marshals t n in
            (msg, s, (λ k a. cc (e, a), λ k. rw same at r), (λ k. cc (k, r), λ k. cc (e, k)))
      ]
