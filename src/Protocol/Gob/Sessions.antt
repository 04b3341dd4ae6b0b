-- ===== src/Protocol/Gob/Sessions.antt =====
-- That a node decodes what a dialling node sends.
use factom_p2p.Prelude.{
  ℕ, suc, ◌==◌, ◌≡◌, refl, sym, ◌∙◌, Bool, true, false, none, some, List, [], ◌∷◌, ◌++◌, length,
  All, Bool-cases, inl, inr, arith,
}
use factom_p2p.Protocol.V9.{V9Msg}
use factom_p2p.Protocol.Gob.{
  GobValue, of_v9, is_v9, Item, same_type, Types, knows, encode, encode_all, decode, decode_all,
  adopt_encoder, dialled_stream,
}

-- The messages of a protocol: all V9Msg with version 9, and all V10Msg with another.
abbrev pub IsOfVersion : ℕ → GobValue → Type 0
IsOfVersion version v = is_v9 v ≡ (version == 9)

same_type_refl : (t : Bool) → same_type t t ≡ true
same_type_refl true = refl
same_type_refl false = refl

knows-cons : (t : Bool) (types : Types) → knows (t ∷ types) t ≡ true
unfolding knows
knows-cons t types = ground (arith, same_type_refl t)

-- A value is decoded, if encoder and decoder agree on whether its type was described.
decode-encode :
    (enc dec : Types) (v : GobValue) (rest : List Item)
    → knows enc (is_v9 v) ≡ knows dec (is_v9 v)
    → let (enc', items) = encode enc v in
      (dec' : Types) × (decode dec (items ++ rest) ≡ some (v, dec', rest))
      × (knows enc' (is_v9 v) ≡ true)
      × (knows dec' (is_v9 v) ≡ true)
unfolding encode decode
decode-encode enc dec v rest same = elim (Bool-cases (knows enc (is_v9 v))) [
  | inl known ↦
      let k : knows dec (is_v9 v) ≡ true = sym same ∙ known in rw (known, k) (dec, refl, known, k)
  | inr new ↦
      let k : knows dec (is_v9 v) ≡ false = sym same ∙ new in
      let enc' = knows-cons (is_v9 v) enc in
      let dec' = knows-cons (is_v9 v) dec in
      rw (new, k) (is_v9 v ∷ dec, rw (same_type_refl (is_v9 v)) refl, enc', dec')
]

decode_all-encode_all :
    (t : Bool) (enc dec : Types) (vs : List GobValue)
    → All (λ v. is_v9 v ≡ t) vs
    → knows enc t ≡ knows dec t
    → decode_all (length vs) dec (encode_all enc vs) ≡ some vs
unfolding decode_all encode_all
decode_all-encode_all t enc dec [] h same = refl
decode_all-encode_all t enc dec (v ∷ vs) (i, h) same =
    let (dec', d, e', k') = decode-encode enc dec v (encode_all (encode enc v).0 vs) (rw i same) in
    let rest = decode_all-encode_all t (encode enc v).0 dec' vs h (rw (← i) (e' ∙ sym k')) in
    rw (d, decode_all, rest) refl

of_version :
    (version : ℕ) (b : Bool) (vs : List GobValue)
    → (version == 9) ≡ b
    → All (IsOfVersion version) vs
    → All (λ v. is_v9 v ≡ b) vs
of_version version b [] e h = tt
of_version version b (v ∷ vs) e (i, h) = (i ∙ e, of_version version b vs e h)

-- The listening node decodes the handshake and every message that follows, if they are of the
-- version that was settled, whichever it is; with a new encoder in place of the adopted one it would
-- decode no message of version 9.
pub session_decodes :
    (handshake : V9Msg) (version : ℕ) (messages : List GobValue)
    → All (IsOfVersion version) messages
    → (decode_all (suc (length messages)) [] (dialled_stream handshake version messages)
        ≡ some (of_v9 handshake ∷ messages))
      × ((m : V9Msg)
          → decode_all 2 [] (
              (encode [] (of_v9 handshake)).1
              ++ encode_all (adopt_encoder none version []) (of_v9 m ∷ []))
            ≡ none)
unfolding dialled_stream encode encode_all decode_all decode knows adopt_encoder
session_decodes handshake version messages h = (
  elim (Bool-cases (version == 9)) [
    | inl nine ↦
        let same : All (λ v. is_v9 v ≡ true) messages = of_version version true messages nine h in
        rw (nine, decode_all-encode_all true (true ∷ []) (true ∷ []) messages same refl) refl
    | inr ten ↦
        let same : All (λ v. is_v9 v ≡ false) messages = of_version version false messages ten h in
        rw (ten, decode_all-encode_all false [] (true ∷ []) messages same refl) refl
  ],
  λ m. refl,
)
