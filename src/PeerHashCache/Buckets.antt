-- ===== src/PeerHashCache/Buckets.antt =====
-- phcBucket of peerHashCache.go: the hashes of one interval. The SHA-1 sums are lists of bytes.
use factom_p2p.Prelude.{
  ◌≡◌, ◌||◌, Bool, true, false, Option, none, some, List, [], GoMap, ℕ, lookup, insert,
  lookup-insert, arith, str_eq, string_eq,
}

abbrev pub Hash : Type 0
Hash = List ℕ

abbrev pub Bucket : Type 0
Bucket = GoMap Hash Bool

-- A missing key reads as false.
abbrev or_false : Option Bool → Bool
or_false none = false
or_false (some b) = b

-- newphcBucket
abbrev pub new : Bucket
new = []

-- b.data[hash]
unfoldable pub has : Bucket → Hash → Bool
has b hash = or_false (lookup hash b)

-- b.data[hash] = true
unfoldable pub add : Bucket → Hash → Bucket
add b hash = insert hash true b

pub has-add :
    (b : Bucket) (hash other : Hash) → has (add b hash) other ≡ (str_eq hash other || has b other)
unfolding has add
has-add b hash other = ground (arith, lookup-insert hash other true b)

pub has-new : (hash : Hash) → has new hash ≡ false
unfolding has lookup
has-new hash = ground arith
