-- ===== src/PeerHashCache/Ring.antt =====
-- The bucket at each offset from the pointer, before and after an operation.
use factom_p2p.Prelude.{
  ℕ, zero, suc, ◌+◌, ◌-◌, ◌%◌, ◌<◌, ◌≡◌, ◌≢◌, sym, ap, ◌∙◌, false, ◌||◌, ◌&&◌, str_eq, get_elem?-lt,
  Option, some, length, get_elem?, set, length-set, get_elem?-set_self, get_elem?-set_ne, ◌==◌,
  if◌then◌else◌, arith,
}
use native.Mathlib.Nat.{add-mod_right}
use factom_p2p.PeerHashCache.Buckets
use factom_p2p.PeerHashCache.Buckets.{Bucket, Hash}
use factom_p2p.PeerHashCache.{Cache, ptr, bucket_has, add, drop_oldest_bucket}

-- At least one bucket, and the pointer at one of them.
pub record IsRing (n : ℕ) (pr : Cache) : Type 0 where
  pub size : length pr.buckets ≡ n
  pub in_range : pr.pc < n

abbrev pub slot : Cache → ℕ → Option Bucket
slot pr i = get_elem? pr.buckets (ptr pr i)

ring_zero : (p n : ℕ) → p < n → (p + 0) % n ≡ p
ring_zero p n h = grind arith

ring_step_back : (p n i : ℕ) → p < n → i + 1 < n → (if p == 0 then n - 1 else p - 1) < n
ring_step_back p n i h k = ground arith

ring_shift :
    (p n i : ℕ)
    → p < n
    → i + 1 < n
    → ((if p == 0 then n - 1 else p - 1) + (i + 1)) % n ≡ (p + i) % n
ring_shift zero n i h k =
    let e : (n - 1) + (i + 1) ≡ i + n = omega arith in
    let z : zero + i ≡ i = omega arith in rw (e, z) (add-mod_right i n)
ring_shift (suc p) n i h k = ap (λ (t : ℕ). t % n) (ground arith)

ring_apart : (p n i : ℕ) → p < n → i + 1 < n → (p + (i + 1)) % n ≢ p
ring_apart p n i h k = grind arith

ptr_ring : (n : ℕ) (pr : Cache) → IsRing n pr → (i : ℕ) → ptr pr i ≡ (pr.pc + i) % n
unfolding ptr
ptr_ring n pr r i = rw r.size

-- The first offset is the pointer, and the others are other buckets.
slot-zero : (n : ℕ) (pr : Cache) → IsRing n pr → slot pr 0 ≡ get_elem? pr.buckets pr.pc
slot-zero n pr r = rw (ptr_ring n pr r 0, ring_zero pr.pc n r.in_range)

module _ (n : ℕ) (pr : Cache) (r : IsRing n pr) where
  abbrev written : ℕ → Bucket → Cache
  written pc b = record { buckets = set pr.buckets pc b; pc = pc }

  written-IsRing : (pc : ℕ) (b : Bucket) → pc < n → IsRing n (written pc b)
  written-IsRing pc b h = record { size = length-set pr.buckets pc b ∙ r.size; in_range = h }

  slot-written_zero : (pc : ℕ) (b : Bucket) → pc < n → slot (written pc b) 0 ≡ some b
  slot-written_zero pc b h =
      slot-zero n (written pc b) (written-IsRing pc b h)
      ∙ get_elem?-set_self pr.buckets pc b (rw r.size h)

  slot-written_suc :
      (pc : ℕ) (b : Bucket) (i : ℕ)
      → pc < n
      → i + 1 < n
      → slot (written pc b) (i + 1) ≡ get_elem? pr.buckets ((pc + (i + 1)) % n)
  slot-written_suc pc b i h k =
      rw (ptr_ring n (written pc b) (written-IsRing pc b h) (i + 1))
        (get_elem?-set_ne pr.buckets pc ((pc + (i + 1)) % n) b (λ e. ring_apart pc n i h k (sym e)))

  added_slot :
      (b : Bucket) (hash other : Hash) (i : ℕ)
      → get_elem? pr.buckets pr.pc ≡ some b
      → i < n
      → bucket_has (slot (written pr.pc (Buckets.add b hash)) i) other
        ≡ ((i == 0) && str_eq hash other || bucket_has (slot pr i) other)
  added_slot b hash other zero e h =
      rw (slot-written_zero pr.pc (Buckets.add b hash) r.in_range, slot-zero n pr r, e)
        (Buckets.has-add b hash other)
  added_slot b hash other (suc i) e h =
      let s : suc i ≡ i + 1 = omega arith in
      rw
        (
          s,
          slot-written_suc pr.pc (Buckets.add b hash) i r.in_range (omega arith),
          ptr_ring n pr r (i + 1),
        )
        (ground arith)

  -- Add puts the hash in the bucket of the pointer, and succeeds.
  pub add-slots :
      (hash : Hash)
      → (pr' : Cache) × (add pr hash ≡ some pr')
        × IsRing n pr'
        × ((i : ℕ) (other : Hash)
            → i < n
            → bucket_has (slot pr' i) other
              ≡ ((i == 0) && str_eq hash other || bucket_has (slot pr i) other))
  unfolding add
  add-slots hash =
      let (b, e) = get_elem?-lt pr.buckets pr.pc (rw r.size r.in_range) in
      (
        written pr.pc (Buckets.add b hash),
        rw (e, add),
        written-IsRing pr.pc (Buckets.add b hash) r.in_range,
        λ i other h. added_slot b hash other i e h,
      )

  abbrev back : ℕ
  back = if pr.pc == 0 then n - 1 else pr.pc - 1

  dropped_slot :
      (other : Hash) (i : ℕ)
      → i < n
      → bucket_has (slot (written back Buckets.new) i) other
        ≡ (if i == 0 then false else bucket_has (slot pr (i - 1)) other)
  dropped_slot other zero h =
      rw (slot-written_zero back Buckets.new (ground (arith, r.in_range))) (Buckets.has-new other)
  dropped_slot other (suc i) h =
      let s : suc i ≡ i + 1 = omega arith in
      let d : i + 1 - 1 ≡ i = omega arith in
      rw
        (
          s,
          slot-written_suc back Buckets.new i (ground (arith, r.in_range)) (omega arith),
          ring_shift pr.pc n i r.in_range (omega arith),
          d,
          ptr_ring n pr r i,
        )
        (ground arith)

  -- A tick moves every bucket one offset on, loses the last one and starts an empty one.
  pub drop-slots :
      (pr' : Cache) × (drop_oldest_bucket pr ≡ some pr')
      × IsRing n pr'
      × ((i : ℕ) (other : Hash)
          → i < n
          → bucket_has (slot pr' i) other
            ≡ (if i == 0 then false else bucket_has (slot pr (i - 1)) other))
  unfolding drop_oldest_bucket
  drop-slots = (
    written back Buckets.new,
    ground (arith, r.size, r.in_range),
    written-IsRing back Buckets.new (ground (arith, r.in_range)),
    λ i other h. dropped_slot other i h,
  )
