-- ===== src/PeerHashCache/Window.antt =====
-- What a cache answers after any sequence of additions and ticks.
use factom_p2p.Prelude.{
  ℕ, zero, suc, ◌+◌, ◌-◌, ◌≤◌, ◌<◌, ◌≡◌, refl, ◌∙◌, Bool, true, false, ◌||◌, ◌&&◌, Option, none,
  some, List, [], ◌∷◌, length-replicate, replicate, get_elem?, ltb, ◌==◌, str_eq, if◌then◌else◌,
  arith,
}
use factom_p2p.PeerHashCache.Buckets
use factom_p2p.PeerHashCache.Buckets.{Bucket, Hash}
use factom_p2p.PeerHashCache.{Cache, bucket_has, new_cache, add, drop_oldest_bucket, has, has_from}
use factom_p2p.PeerHashCache.Ring.{IsRing, slot, add-slots, drop-slots}

pub data Event : Type 0 where
  adds : Hash → Event
  ticks : Event

unfoldable pub step : Cache → Event → Option Cache
step pr (adds hash) = add pr hash
step pr ticks = drop_oldest_bucket pr

-- A history of events, the latest first, on a new cache; `none` is a panic.
unfoldable pub run : ℕ → List Event → Option Cache
run n [] = some (new_cache n)
run n (e ∷ earlier) = elim (run n earlier) [ none ↦ none | some pr ↦ step pr e ]

-- How many ticks have passed since the hash was last added.
abbrev pub age : Hash → List Event → Option ℕ
age hash [] = none
age hash (adds other ∷ earlier) = if str_eq other hash then some 0 else age hash earlier
age hash (ticks ∷ earlier) = elim (age hash earlier) [ none ↦ none | some k ↦ some (suc k) ]

abbrev pub younger : ℕ → Option ℕ → Bool
younger n none = false
younger n (some k) = ltb k n

-- Whether the hash was added in the interval that began `i` ticks ago.
added_in : ℕ → Hash → List Event → Bool
added_in i hash [] = false
added_in i hash (adds other ∷ earlier) = (i == 0) && str_eq other hash || added_in i hash earlier
added_in i hash (ticks ∷ earlier) =
    let past = added_in (i - 1) hash earlier in if i == 0 then false else past

any_from : (ℕ → Bool) → ℕ → ℕ → Bool
any_from f i zero = false
any_from f i (suc left) = let rest = any_from f (suc i) left in if f i then true else rest

-- The slots hold what was added in their intervals.
record Mirrors (n : ℕ) (events : List Event) (pr : Cache) : Type 0 where
  ring : IsRing n pr
  slots : (i : ℕ) (hash : Hash) → i < n → bucket_has (slot pr i) hash ≡ added_in i hash events

slot-replicate :
    (n i : ℕ) (hash : Hash) → bucket_has (get_elem? (replicate n Buckets.new) i) hash ≡ false
slot-replicate zero i hash = refl
slot-replicate (suc n) zero hash = Buckets.has-new hash
slot-replicate (suc n) (suc i) hash = slot-replicate n i hash

new_cache-Mirrors : (n : ℕ) → 0 < n → Mirrors n [] (new_cache n)
unfolding new_cache added_in
new_cache-Mirrors n h = record {
  ring = record { size = length-replicate n Buckets.new; in_range = h };
  slots = λ i hash l. slot-replicate n _ hash;
}

run-Mirrors :
    (n : ℕ) (events : List Event)
    → 0 < n
    → (pr : Cache) × (run n events ≡ some pr) × Mirrors n events pr
unfolding run step added_in
run-Mirrors n [] h = (new_cache n, refl, new_cache-Mirrors n h)
run-Mirrors n (adds other ∷ earlier) h =
    let (pr, e, m) = run-Mirrors n earlier h in
    let (pr', e', r', s) = add-slots n pr m.ring other in
    (
      pr',
      rw (e, run) e',
      record { ring = r'; slots = λ i hash l. ground (arith, s i hash, m.slots i hash) },
    )
run-Mirrors n (ticks ∷ earlier) h =
    let (pr, e, m) = run-Mirrors n earlier h in
    let (pr', e', r', s) = drop-slots n pr m.ring in
    (
      pr',
      rw (e, run) e',
      record { ring = r'; slots = λ i hash l. ground (arith, s i hash, m.slots (i - 1) hash) },
    )

has_from-any_from :
    (n : ℕ) (events : List Event) (pr : Cache) (hash : Hash) (i left : ℕ)
    → Mirrors n events pr
    → i + left ≤ n
    → has_from pr hash i left ≡ any_from (λ j. added_in j hash events) i left
unfolding has_from any_from
has_from-any_from n events pr hash i zero m h = refl
has_from-any_from n events pr hash i (suc left) m h = ground (
  arith,
  m.slots i hash (omega arith),
  has_from-any_from n events pr hash (suc i) left m (omega arith),
)

any_from-false : (i left : ℕ) (hash : Hash) → any_from (λ j. added_in j hash []) i left ≡ false
unfolding any_from added_in
any_from-false i zero hash = refl
any_from-false i (suc left) hash = any_from-false (suc i) left hash

any_from-ticks :
    (i left : ℕ) (hash : Hash) (events : List Event)
    → any_from (λ j. added_in j hash (ticks ∷ events)) (suc i) left
      ≡ any_from (λ j. added_in j hash events) i left
unfolding any_from added_in
any_from-ticks i zero hash events = refl
any_from-ticks i (suc left) hash events =
    let s : suc i - 1 ≡ i = omega arith in
    rw s (ground (arith, any_from-ticks (suc i) left hash events))

any_from-adds :
    (i left : ℕ) (hash other : Hash) (events : List Event)
    → any_from (λ j. added_in j hash (adds other ∷ events)) (suc i) left
      ≡ any_from (λ j. added_in j hash events) (suc i) left
unfolding any_from added_in
any_from-adds i zero hash other events = refl
any_from-adds i (suc left) hash other events =
    ground (arith, any_from-adds (suc i) left hash other events)

any_from-age :
    (n : ℕ) (hash : Hash) (events : List Event)
    → any_from (λ j. added_in j hash events) 0 n ≡ younger n (age hash events)
unfolding any_from added_in
any_from-age n hash [] = any_from-false 0 n hash
any_from-age zero hash (adds other ∷ earlier) = ground arith
any_from-age (suc n) hash (adds other ∷ earlier) =
    ground (arith, any_from-adds 0 n hash other earlier, any_from-age (suc n) hash earlier)
any_from-age zero hash (ticks ∷ earlier) = ground arith
any_from-age (suc n) hash (ticks ∷ earlier) =
    ground (arith, any_from-ticks 0 n hash earlier, any_from-age n hash earlier)

-- A cache of `n` buckets, at least one, never panics; and after any sequence of additions and
-- ticks it has a hash exactly if the hash was added and fewer than `n` ticks have passed since
-- its last addition.
pub has-age :
    (n : ℕ) (events : List Event)
    → 0 < n
    → (pr : Cache) × (run n events ≡ some pr)
      × ((hash : Hash) → has pr hash ≡ younger n (age hash events))
unfolding has
has-age n events h =
    let (pr, e, m) = run-Mirrors n events h in
    (
      pr,
      e,
      λ hash.
          rw m.ring.size
            (has_from-any_from n events pr hash 0 n m (omega arith) ∙ any_from-age n hash events),
    )

-- With no bucket, which a configuration of zero buckets gives, the first addition panics, while
-- every question is answered with no.
pub add-no_buckets :
    (hash other : Hash) → (add (new_cache 0) hash ≡ none) × (has (new_cache 0) other ≡ false)
unfolding add new_cache has has_from
add-no_buckets hash other = (refl, refl)
