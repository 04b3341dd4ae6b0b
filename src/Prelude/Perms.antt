-- ===== src/Prelude/Perms.antt =====
-- Lists that hold the same elements, counted by native numbers.
use mathlib.Core.List.Perm
use mathlib.Core.List.{List, [], ◌∷◌, ◌++◌, Perm, Permᴰ, perm_middle}
use mathlib.Core.Bool.{Bool, not}
use mathlib.Core.Path.{◌≡◌, refl, ◌∙◌}
use mathlib.Core.Logic.{∥∥₁_elim, inl, inr}
use native.Mathlib.Nat.{ℕ_set}
use native.Mathlib.Omega.{arith}
use Prim.Native.Nat.{◌+◌}
use factom_p2p.Prelude.Tests.{Bool-cases}
use factom_p2p.Prelude.Lists.{length, select, count_if}

module _ {ℓ} {A : Type ℓ} where
  count_if-permᴰ : (p : A → Bool) {xs ys : List A} → Permᴰ xs ys → count_if p xs ≡ count_if p ys
  count_if-permᴰ p Permᴰ.nil = refl
  count_if-permᴰ p (Permᴰ.cons e h) = ground (arith, count_if-permᴰ p h)
  count_if-permᴰ p (Permᴰ.swap e f) = ground arith
  count_if-permᴰ p (Permᴰ.trans h k) = count_if-permᴰ p h ∙ count_if-permᴰ p k

  length-permᴰ : {xs ys : List A} → Permᴰ xs ys → length xs ≡ length ys
  length-permᴰ Permᴰ.nil = refl
  length-permᴰ (Permᴰ.cons e h) = ground (arith, length-permᴰ h)
  length-permᴰ (Permᴰ.swap e f) = refl
  length-permᴰ (Permᴰ.trans h k) = length-permᴰ h ∙ length-permᴰ k

  pub count_if-perm : (p : A → Bool) (xs ys : List A) → Perm xs ys → count_if p xs ≡ count_if p ys
  count_if-perm p xs ys h = ∥∥₁_elim h (ℕ_set _ _) (count_if-permᴰ p)

  pub length-perm : (xs ys : List A) → Perm xs ys → length xs ≡ length ys
  length-perm xs ys h = ∥∥₁_elim h (ℕ_set _ _) length-permᴰ

  -- What passes a test and what does not, together.
  pub select-perm :
      (p : A → Bool) (xs : List A) → Perm (select p xs ++ select (λ x. not (p x)) xs) xs
  select-perm p [] = Perm.refl []
  select-perm p (x ∷ xs) = elim (Bool-cases (p x)) [
    | inl e ↦ rw e (Perm.cons x (select-perm p xs))
    | inr e ↦ rw e (
        Perm.trans (perm_middle (select p xs) (select (λ x. not (p x)) xs))
          (Perm.cons x (select-perm p xs)))
  ]

  pub count_if-not-select :
      (p : A → Bool) (xs : List A) → count_if p (select (λ x. not (p x)) xs) ≡ 0
  count_if-not-select p [] = refl
  count_if-not-select p (x ∷ xs) = ground (arith, count_if-not-select p xs)

  pub count_if-select : (p : A → Bool) (xs : List A) → count_if p (select p xs) ≡ count_if p xs
  count_if-select p [] = refl
  count_if-select p (x ∷ xs) = ground (arith, count_if-select p xs)

  pub count_if-not :
      (p : A → Bool) (xs : List A) → count_if p xs + count_if (λ x. not (p x)) xs ≡ length xs
  count_if-not p [] = refl
  count_if-not p (x ∷ xs) = ground (arith, count_if-not p xs)
