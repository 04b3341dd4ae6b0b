-- ===== src/PeerHash/Digits.antt =====
-- That the hash determines what it is made of.
use native.Mathlib.Nat.{pow-suc}
use factom_p2p.Prelude.{
  ℕ, zero, suc, ◌*◌, ◌/◌, ◌%◌, ◌^◌, ◌<◌, ◌≡◌, ◌∙◌, refl, sym, ap, some, List, [], ◌∷◌, ◌++◌, length,
  length-append, arith,
}
use factom_p2p.Endpoint.{Endpoint, to_string}
use factom_p2p.PeerHash.{hex_digit, hex_digits, peer_hash, digit_value}

pub digit_value-hex_digit : (d : ℕ) → d < 16 → digit_value (hex_digit d) ≡ some d
unfolding digit_value hex_digit
digit_value-hex_digit d h = ground arith

pub length-hex_digits : (n v : ℕ) → length (hex_digits n v) ≡ n
unfolding hex_digits
length-hex_digits zero v = refl
length-hex_digits (suc n) v = omega (
  arith,
  length-append (hex_digits n (v / 16)) (hex_digit (v % 16) ∷ []),
  length-hex_digits n (v / 16),
)

-- Lists that end in equally many elements are cut at the same place.
append_cut {ℓ} :
    {A : Type ℓ} (xs ys us vs : List A)
    → length us ≡ length vs
    → xs ++ us ≡ ys ++ vs
    → (xs ≡ ys) × (us ≡ vs)
append_cut [] [] us vs h e = (refl, e)
append_cut [] (y ∷ ys) us vs h e = absurd (omega (arith, ap length e, length-append ys vs))
append_cut (x ∷ xs) [] us vs h e = absurd (omega (arith, ap length e, length-append xs us))
append_cut (x ∷ xs) (y ∷ ys) us vs h e =
    let tails : xs ++ us ≡ ys ++ vs = ground arith in
    let rest = append_cut xs ys us vs h tails in (ground (arith, rest.0), rest.1)

hex_digits_cancel : (n v w : ℕ) → v < 16 ^ n → w < 16 ^ n → hex_digits n v ≡ hex_digits n w → v ≡ w
unfolding hex_digits
hex_digits_cancel zero v w h k e = omega arith
hex_digits_cancel (suc n) v w h k e =
    let (front, last) =
      append_cut (hex_digits n (v / 16)) (hex_digits n (w / 16)) (hex_digit (v % 16) ∷ [])
        (hex_digit (w % 16) ∷ []) refl e in
    let same : hex_digit (v % 16) ≡ hex_digit (w % 16) = cc in
    let digit : some (v % 16) ≡ some (w % 16) =
      sym (digit_value-hex_digit (v % 16) (omega arith))
      ∙ ap digit_value same
      ∙ digit_value-hex_digit (w % 16) (omega arith) in
    let power : 16 ^ suc n ≡ 16 ^ n * 16 = pow-suc 16 n in
    let rest : v / 16 ≡ w / 16 =
      hex_digits_cancel n (v / 16) (w / 16) (omega (arith, power)) (omega (arith, power)) front in
    let last_digit : v % 16 ≡ w % 16 = cc in omega arith

-- Peers with one hash have one "ip:port", and are of nodes with one id, if the ids fit 32 bits.
pub peer_hash_cancel :
    (a b : Endpoint) (i j : ℕ)
    → i < 2 ^ 32
    → j < 2 ^ 32
    → peer_hash a i ≡ peer_hash b j
    → (to_string a ≡ to_string b) × (i ≡ j)
unfolding peer_hash
peer_hash_cancel a b i j h k e =
    let sizes : length (b' ' ∷ hex_digits 8 i) ≡ length (b' ' ∷ hex_digits 8 j) =
      omega (arith, length-hex_digits 8 i, length-hex_digits 8 j) in
    let (front, back) =
      append_cut (to_string a) (to_string b) (b' ' ∷ hex_digits 8 i) (b' ' ∷ hex_digits 8 j) sizes
        e in
    let ids : hex_digits 8 i ≡ hex_digits 8 j = cc in
    (front, hex_digits_cancel 8 i j (omega arith) (omega arith) ids)
