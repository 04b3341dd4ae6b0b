-- ===== src/PeerStore/Counts.antt =====
-- The counts of addresses.
use factom_p2p.Prelude.{
  ℕ, ◌+◌, ◌≡◌, ◌≢◌, true, false, Bool, some, GoMap, lookup, insert, lookup-insert, lookup-delete,
  str_eq, str_eq_iff, string_eq, arith,
}
use factom_p2p.Prelude.Int.{ℤ, pos, increment, decrement}
use factom_p2p.Net.{GoString}
use factom_p2p.PeerStore.{count_at, count_up, count_down}

abbrev pub one_if : Bool → ℕ
one_if true = 1
one_if false = 0

-- The counts are those of `n`, and none of them is stored as 0.
pub record CountsOf (n : GoString → ℕ) (connected : GoMap GoString ℤ) : Type 0 where
  pub counts : (addr : GoString) → count_at connected addr ≡ pos (n addr)
  pub no_zero : (addr : GoString) → lookup addr connected ≢ some (pos 0)

module _ (n : GoString → ℕ) (connected : GoMap GoString ℤ) (v : CountsOf n connected) where
  at_count_up :
      (addr k : GoString)
      → count_at (count_up addr connected) k ≡ pos (n k + one_if (str_eq addr k))
  unfolding count_at count_up
  at_count_up addr k = ground (
    arith,
    lookup-insert addr k (increment (count_at connected addr)) connected,
    v.counts addr,
    v.counts k,
    str_eq_iff addr k,
  )

  up_no_zero : (addr k : GoString) → lookup k (count_up addr connected) ≢ some (pos 0)
  unfolding count_up
  up_no_zero addr k e = ground (
    arith,
    lookup-insert addr k (increment (count_at connected addr)) connected,
    v.counts addr,
    v.no_zero k,
  )

  pub count_up-CountsOf :
      (addr : GoString) → CountsOf (λ k. n k + one_if (str_eq addr k)) (count_up addr connected)
  count_up-CountsOf addr = record { counts = at_count_up addr; no_zero = up_no_zero addr }

  module _ (m : GoString → ℕ) (addr : GoString)
      (h : (k : GoString) → m k + one_if (str_eq addr k) ≡ n k) where
    abbrev less : GoMap GoString ℤ
    less = insert addr (decrement (count_at connected addr)) connected

    decremented : decrement (count_at connected addr) ≡ pos (m addr)
    decremented = ground (arith, v.counts addr, h addr, str_eq_iff addr addr)

    at_count_down : (k : GoString) → count_at (count_down addr connected) k ≡ pos (m k)
    unfolding count_at count_down
    at_count_down k = ground (
      arith,
      lookup-insert addr k (decrement (count_at connected addr)) connected,
      lookup-insert addr addr (decrement (count_at connected addr)) connected,
      lookup-delete addr k less,
      decremented,
      v.counts k,
      h k,
      str_eq_iff addr k,
      str_eq_iff addr addr,
    )

    down_no_zero : (k : GoString) → lookup k (count_down addr connected) ≢ some (pos 0)
    unfolding count_at count_down
    down_no_zero k e = ground (
      arith,
      lookup-insert addr k (decrement (count_at connected addr)) connected,
      lookup-insert addr addr (decrement (count_at connected addr)) connected,
      lookup-delete addr k less,
      decremented,
      v.no_zero k,
      str_eq_iff addr k,
      str_eq_iff addr addr,
    )

    pub count_down-CountsOf : CountsOf m (count_down addr connected)
    count_down-CountsOf = record { counts = at_count_down; no_zero = down_no_zero }
