-- ===== src/Protocol/Gob.antt =====
-- encoding/gob as versions 9 and 10 use it: an encoder describes a type before the first value that
-- it sends of it, and a decoder refuses a description that it has already, and a value of a type
-- that was not described. A node that dials has an encoder of the protocol that it desires, with
-- which it sends its handshake, and one of the protocol that the reply settles; handshakeOutgoing of
-- controller_connections.go chooses between them.
pub mod Sessions
mod Tests
use factom_p2p.Prelude.{
  ℕ, zero, suc, ◌==◌, Bool, true, false, ◌||◌, Option, none, some, List, [], ◌∷◌, ◌++◌, any_of,
  if◌then◌else◌,
}
use factom_p2p.Protocol.V9.{V9Msg}
use factom_p2p.Protocol.V10.{V10Msg}

-- A value that is sent, of one of the two types.
pub data GobValue : Type 0 where
  of_v9 : V9Msg → GobValue
  of_v10 : V10Msg → GobValue

-- That the type of the value is V9Msg.
abbrev pub is_v9 : GobValue → Bool
is_v9 (of_v9 m) = true
is_v9 (of_v10 m) = false

-- What is on the stream: the description of V9Msg, or of V10Msg, or a value.
pub data Item : Type 0 where
  describes : Bool → Item
  carries : GobValue → Item

abbrev pub same_type : Bool → Bool → Bool
same_type true t = t
same_type false true = false
same_type false false = true

-- The types that an encoder described, and those that a decoder knows.
abbrev pub Types : Type 0
Types = List Bool

unfoldable pub knows : Types → Bool → Bool
knows types t = any_of (λ u. same_type u t) types

unfoldable pub encode : Types → GobValue → Types × List Item
unfolding knows
encode enc v =
    if knows enc (is_v9 v)
    then (enc, carries v ∷ [])
    else (is_v9 v ∷ enc, describes (is_v9 v) ∷ carries v ∷ [])

unfoldable pub encode_all : Types → List GobValue → List Item
unfolding encode
encode_all enc [] = []
encode_all enc (v ∷ vs) = let (enc', items) = encode enc v in items ++ encode_all enc' vs

-- One value, what the decoder knows then, and what is left; `none` is an error.
unfoldable pub decode : Types → List Item → Option (GobValue × Types × List Item)
unfolding knows
decode dec [] = none
decode dec (describes t ∷ items) =
    let rest = decode (t ∷ dec) items in if knows dec t then none else rest
decode dec (carries v ∷ items) = if knows dec (is_v9 v) then some (v, dec, items) else none

abbrev pub cons_decoded : GobValue → Option (List GobValue) → Option (List GobValue)
cons_decoded v none = none
cons_decoded v (some vs) = some (v ∷ vs)

-- As many values as that.
unfoldable pub decode_all : ℕ → Types → List Item → Option (List GobValue)
unfolding decode
decode_all zero dec items = some []
decode_all (suc n) dec items = elim (decode dec items) [
  | none ↦ none
  | some r ↦ let (v, dec', rest) = r in cons_decoded v (decode_all n dec' rest)
]

-- The encoder after the handshake: that of the desired protocol, if it has one, where version 9 is
-- settled, and else the new one.
unfoldable pub adopt_encoder : Option Types → ℕ → Types → Types
adopt_encoder none version new = new
adopt_encoder (some desired) version new = if version == 9 then desired else new

-- What a dialling node of version 9 or 10 sends: its handshake, and then messages in the version
-- that the reply settles.
unfoldable pub dialled_stream : V9Msg → ℕ → List GobValue → List Item
unfolding encode_all adopt_encoder
dialled_stream handshake version messages =
    let (desired, first) = encode [] (of_v9 handshake) in
    first ++ encode_all (adopt_encoder (some desired) version []) messages
