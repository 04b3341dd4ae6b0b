-- ===== src/Debug/Ids.antt =====
-- The ids that are read off hashes.
use factom_p2p.Prelude.{
  ℕ, zero, suc, ◌+◌, ◌*◌, ◌/◌, ◌%◌, ◌^◌, ◌<◌, ◌≡◌, refl, ◌∙◌, false, some, List, [], ◌∷◌, ◌++◌,
  length, ◌==◌, arith,
}
use factom_p2p.Net.{GoString, has_byte}
use factom_p2p.Endpoint.{Endpoint, to_string}
use factom_p2p.PeerHash.{hex_digit, hex_digits, peer_hash}
use factom_p2p.PeerHash.Digits.{digit_value-hex_digit, length-hex_digits}
use factom_p2p.Debug.{
  split, decode_hex, little_endian_uint32, id, id_of_digits, id_of_parts, id_from_hash,
}

-- The four bytes of a number in the other order.
abbrev pub byte_swapped : ℕ → ℕ
byte_swapped v =
    v / 2 ^ 24 % 256 + v / 2 ^ 16 % 256 * 2 ^ 8 + v / 2 ^ 8 % 256 * 2 ^ 16 + v % 256 * 2 ^ 24

split-spaceless : (t : GoString) → has_byte b' ' t ≡ false → split t ≡ (t, [])
unfolding split
split-spaceless [] h = refl
split-spaceless (c ∷ t) h = ground (arith, split-spaceless t)

split-append :
    (s t : GoString)
    → has_byte b' ' s ≡ false
    → has_byte b' ' t ≡ false
    → split (s ++ b' ' ∷ t) ≡ (s, t ∷ [])
unfolding split
split-append [] t h k = rw (split-spaceless t k) refl
split-append (c ∷ s) t h k =
    let rest : split (s ++ b' ' ∷ t) ≡ (s, t ∷ []) = split-append s t (ground (arith, h)) k in
    let other : (c == b' ') ≡ false = ground (arith, h) in rw (rest, other) refl

digit_spaceless : (d : ℕ) → (hex_digit d == b' ') ≡ false
unfolding hex_digit
digit_spaceless d = ground arith

spaceless-append :
    (s t : GoString)
    → has_byte b' ' s ≡ false
    → has_byte b' ' t ≡ false
    → has_byte b' ' (s ++ t) ≡ false
spaceless-append [] t h k = k
spaceless-append (c ∷ s) t h k = ground (arith, spaceless-append s t)

hex_digits_spaceless : (n v : ℕ) → has_byte b' ' (hex_digits n v) ≡ false
unfolding hex_digits
hex_digits_spaceless zero v = refl
hex_digits_spaceless (suc n) v =
    spaceless-append (hex_digits n (v / 16)) (hex_digit (v % 16) ∷ [])
      (hex_digits_spaceless n (v / 16)) (rw (digit_spaceless (v % 16)) refl)

decode_hex-digits :
    (a b : ℕ) (s : GoString) (bs : List ℕ)
    → decode_hex s ≡ some bs
    → decode_hex (hex_digit (a % 16) ∷ hex_digit (b % 16) ∷ s) ≡ some ((a % 16 * 16 + b % 16) ∷ bs)
unfolding decode_hex
decode_hex-digits a b s bs h =
    rw
      (
        digit_value-hex_digit (a % 16) (omega arith),
        decode_hex,
        digit_value-hex_digit (b % 16) (omega arith),
        h,
      )
      refl

-- The bytes of the digits, the highest first.
abbrev byte_of : ℕ → ℕ
byte_of v = v / 16 % 16 * 16 + v % 16

decode_hex-hex_digits :
    (v : ℕ)
    → decode_hex (hex_digits 8 v)
      ≡ some (
          byte_of (v / 16 / 16 / 16 / 16 / 16 / 16)
          ∷ byte_of (v / 16 / 16 / 16 / 16)
          ∷ byte_of (v / 16 / 16)
          ∷ byte_of v
          ∷ [])
unfolding decode_hex hex_digits
decode_hex-hex_digits v =
    let s2 = hex_digit ((v / 16) % 16) ∷ hex_digit ((v) % 16) ∷ [] in
    let s4 = hex_digit ((v / 16 / 16 / 16) % 16) ∷ hex_digit ((v / 16 / 16) % 16) ∷ s2 in
    let s6 =
      hex_digit ((v / 16 / 16 / 16 / 16 / 16) % 16)
      ∷ hex_digit ((v / 16 / 16 / 16 / 16) % 16)
      ∷ s4 in
    decode_hex-digits (v / 16 / 16 / 16 / 16 / 16 / 16 / 16) (v / 16 / 16 / 16 / 16 / 16 / 16) s6 _
      (decode_hex-digits (v / 16 / 16 / 16 / 16 / 16) (v / 16 / 16 / 16 / 16) s4 _ (
        decode_hex-digits (v / 16 / 16 / 16) (v / 16 / 16) s2 _
          (decode_hex-digits (v / 16) v [] [] refl)))

swapped :
    (v : ℕ)
    → v < 2 ^ 32
    → little_endian_uint32 (
        byte_of (v / 16 / 16 / 16 / 16 / 16 / 16)
        ∷ byte_of (v / 16 / 16 / 16 / 16)
        ∷ byte_of (v / 16 / 16)
        ∷ byte_of v
        ∷ [])
      ≡ byte_swapped v
unfolding little_endian_uint32
swapped v h = omega (arith, h)

eight_digits :
    (s part : GoString)
    → length part ≡ 8
    → id_of_parts (s, part ∷ []) ≡ id_of_digits (decode_hex part)
eight_digits s part h = ground (arith, h)

-- The id that is read off a hash is the one that newPeer put there, with its bytes swapped.
pub id_from_hash-peer_hash :
    (ep : Endpoint) (v : ℕ)
    → has_byte b' ' (to_string ep) ≡ false
    → v < 2 ^ 32
    → id_from_hash (peer_hash ep v) ≡ id (byte_swapped v)
unfolding id_from_hash peer_hash
id_from_hash-peer_hash ep v h k =
    let parts = split-append (to_string ep) (hex_digits 8 v) h (hex_digits_spaceless 8 v) in
    rw parts (
      eight_digits (to_string ep) (hex_digits 8 v) (length-hex_digits 8 v)
      ∙ rw (decode_hex-hex_digits v, swapped v k) refl)
