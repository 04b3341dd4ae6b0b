-- ===== src/PeerHashCache.antt =====
-- peerHashCache.go: a ring of buckets of hashes, one for each interval. The mutexes and the
-- goroutine behind the ticker are left out: each operation is one step, and a tick of the ticker
-- is a call of `drop_oldest_bucket`. An index out of range, a panic in Go, is `none`.
pub mod Buckets
pub mod Ring
pub mod Window
mod Tests
use factom_p2p.Prelude.{
  ℕ, zero, suc, ◌+◌, ◌-◌, ◌%◌, Bool, true, false, Option, none, some, List, length, get_elem?, set,
  replicate, ◌==◌, if◌then◌else◌,
}
use Buckets
use Buckets.{Bucket, Hash}

pub record Cache : Type 0 where
  pub buckets : List Bucket
  pub pc : ℕ

-- NewPeerHashCache
unfoldable pub new_cache : ℕ → Cache
new_cache buckets = record { buckets = replicate buckets Buckets.new; pc = 0 }

-- (pr.pc + offset) % len(pr.buckets)
unfoldable pub ptr : Cache → ℕ → ℕ
ptr pr offset = (pr.pc + offset) % length pr.buckets

abbrev pub bucket_has : Option Bucket → Hash → Bool
bucket_has none hash = false
bucket_has (some b) hash = Buckets.has b hash

-- The loop of Has over the `left` offsets from `i` on. The remainder is a valid index whenever
-- the loop runs at all, so the index expression cannot panic.
unfoldable pub has_from : Cache → Hash → ℕ → ℕ → Bool
unfolding ptr
has_from pr hash i zero = false
has_from pr hash i (suc left) =
    let rest = has_from pr hash (suc i) left in
    if bucket_has (get_elem? pr.buckets (ptr pr i)) hash then true else rest

unfoldable pub has : Cache → Hash → Bool
has pr hash = has_from pr hash 0 (length pr.buckets)

-- pr.buckets[pr.pc].Add(hash)
unfoldable pub add : Cache → Hash → Option Cache
add pr hash = elim (get_elem? pr.buckets pr.pc) [
  | none ↦ none
  | some b ↦ some (record pr { buckets = set pr.buckets pr.pc (Buckets.add b hash) })
]

-- `pc--; if pc < 0 { pc += len }`: from 0 the pointer goes to -1 and so to the last bucket, which
-- is out of range when there is none.
unfoldable pub drop_oldest_bucket : Cache → Option Cache
drop_oldest_bucket pr =
    if length pr.buckets == 0
    then none
    else let pc = if pr.pc == 0 then length pr.buckets - 1 else pr.pc - 1 in
      some (record pr { buckets = set pr.buckets pc Buckets.new; pc = pc })
