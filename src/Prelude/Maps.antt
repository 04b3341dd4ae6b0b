-- ===== src/Prelude/Maps.antt =====
-- Go's built-in maps as association lists with one entry to a key. An insertion overwrites the
-- entry of its key in place; the order of the entries stands for no order of Go's.
use mathlib.Core.Logic.{inl, inr}
use mathlib.Core.Path.{◌≡◌, refl, ap}
use Prim.Native.Nat.{ℕ, ◌+◌, ◌≤◌, ◌<◌}
use mathlib.Core.List.{List, [], ◌∷◌, ◌++◌}
use mathlib.Core.Option.{Option, none, some}
use native.Mathlib.Omega.{arith}
use factom_p2p.Prelude.Tests.{Bool-cases, ltb, Eq, same, same_iff, if◌then◌else◌}

abbrev pub GoMap {ℓ κ} : Type ℓ → Type κ → Type (ℓ ⊔ κ)
GoMap K V = List (K × V)

module _ {ℓ κ} {K : Type ℓ} {V : Type κ} ⦃e : Eq K⦄ where
  -- v, ok := m[k]
  unfoldable pub lookup : K → GoMap K V → Option V
  lookup k [] = none
  lookup k ((j, v) ∷ m) = if same j k then some v else lookup k m

  -- m[k] = v
  unfoldable pub insert : K → V → GoMap K V → GoMap K V
  insert k v [] = (k, v) ∷ []
  insert k v ((j, w) ∷ m) = if same j k then (k, v) ∷ m else (j, w) ∷ insert k v m

  -- delete(m, k)
  unfoldable pub delete : K → GoMap K V → GoMap K V
  delete k [] = []
  delete k ((j, v) ∷ m) = let rest = delete k m in if same j k then rest else (j, v) ∷ rest

  pub lookup-insert :
      (k j : K) (v : V) (m : GoMap K V)
      → lookup j (insert k v m) ≡ (if same k j then some v else lookup j m)
  unfolding lookup insert
  lookup-insert k j v [] = refl
  lookup-insert k j v ((i, w) ∷ m) =
      ground (arith, same_iff k j, same_iff i k, same_iff i j, lookup-insert k j v m)

  pub lookup-delete :
      (k j : K) (m : GoMap K V) → lookup j (delete k m) ≡ (if same k j then none else lookup j m)
  unfolding lookup delete
  lookup-delete k j [] = ground arith
  lookup-delete k j ((i, v) ∷ m) =
      ground (arith, lookup-delete k j m, same_iff i k, same_iff i j, same_iff k j)

  -- Go's maps have one entry to a key.
  abbrev pub Distinct : GoMap K V → Type (ℓ ⊔ κ)
  Distinct [] = Unit
  Distinct ((k, v) ∷ m) = (lookup k m ≡ none) × Distinct m

  -- The sum of a number over the values.
  unfoldable pub total : (V → ℕ) → GoMap K V → ℕ
  total f [] = 0
  total f ((k, v) ∷ m) = f v + total f m

  unfoldable pub values : GoMap K V → List V
  values [] = []
  values ((k, v) ∷ m) = v ∷ values m

  -- An insertion at a new key appends.
  pub insert-append :
      (k : K) (v : V) (m : GoMap K V) → lookup k m ≡ none → insert k v m ≡ m ++ (k, v) ∷ []
  unfolding lookup insert
  insert-append k v [] h = refl
  insert-append k v ((j, w) ∷ m) h = ground (arith, insert-append k v m)

  pub total-append : (f : V → ℕ) (m n : GoMap K V) → total f (m ++ n) ≡ total f m + total f n
  unfolding total
  total-append f [] n = omega arith
  total-append f ((k, v) ∷ m) n = omega (arith, total-append f m n)

  pub values-append : (m n : GoMap K V) → values (m ++ n) ≡ values m ++ values n
  unfolding values
  values-append [] n = refl
  values-append ((k, v) ∷ m) n = ap (λ l. v ∷ l) (values-append m n)

  pub Distinct-append :
      (k : K) (v : V) (m : GoMap K V) → lookup k m ≡ none → Distinct m → Distinct (m ++ (k, v) ∷ [])
  unfolding lookup
  Distinct-append k v [] h d = (refl, tt)
  Distinct-append k v ((j, w) ∷ m) h d = (
    rw (← insert-append k v m (ground arith))
        (ground (arith, lookup-insert k j v m, d.0, same_iff k j, same_iff j k)),
    Distinct-append k v m (ground arith) d.1,
  )

  pub delete_missing : (k : K) (m : GoMap K V) → lookup k m ≡ none → delete k m ≡ m
  unfolding lookup delete
  delete_missing k [] h = refl
  delete_missing k ((j, w) ∷ m) h = ground (arith, delete_missing k m)

  pub delete-Distinct : (k : K) (m : GoMap K V) → Distinct m → Distinct (delete k m)
  unfolding delete
  delete-Distinct k [] d = tt
  delete-Distinct k ((j, w) ∷ m) d =
      ground (arith, delete-Distinct k m d.1, lookup-delete k j m, d.0)

  -- Deleting a key takes the number of its value off the sum.
  pub total-delete :
      (f : V → ℕ) (k : K) (v : V) (m : GoMap K V)
      → Distinct m
      → lookup k m ≡ some v
      → total f (delete k m) + f v ≡ total f m
  unfolding lookup delete total
  total-delete f k v [] d h = cc
  total-delete f k v ((j, w) ∷ m) d h =
      ground (arith, same_iff j k, d.0, d.1, delete_missing k m, total-delete f k v m d.1)

  -- A sum is positive exactly if the number of some entry is.
  pub total_pos :
      (f : V → ℕ) (m : GoMap K V)
      → Distinct m
      → 0 < total f m
      → (k : K) × (v : V) × (lookup k m ≡ some v) × (0 < f v)
  unfolding total lookup
  total_pos f [] d h = absurd (omega arith)
  total_pos f ((k, v) ∷ m) d h = elim (Bool-cases (ltb 0 (f v))) [
    | inl here ↦ (k, v, ground (arith, same_iff k k), ground arith)
    | inr not_here ↦
        let (j, w, e, p) = total_pos f m d.1 (ground arith) in
        (j, w, ground (arith, same_iff k j, d.0), p)
  ]

  pub total-ge : (f : V → ℕ) (k : K) (v : V) (m : GoMap K V) → lookup k m ≡ some v → f v ≤ total f m
  unfolding total lookup
  total-ge f k v [] h = cc
  total-ge f k v ((j, w) ∷ m) h = ground (arith, total-ge f k v m)
