-- ===== src/ParcelChannel/Stream.antt =====
-- A channel between one sender and one reader, over any sequence of sends and receives.
use mathlib.Core.List.{append_assoc, append-nil}
use factom_p2p.Prelude.{
  ℕ, zero, suc, ◌+◌, ◌-◌, ◌/◌, ◌≤◌, ◌<◌, ◌≡◌, refl, true, none, some, List, [], ◌∷◌, ◌++◌, arith,
  length, drop, length-append, length-drop, ltb, if◌then◌else◌,
}
use factom_p2p.ParcelChannel.{Channel, new_channel, send, receive}
use factom_p2p.ParcelChannel.Send.{send_lem}

-- The first list is the second with some elements left out.
pub data IsSubsequence {ℓ} {A : Type ℓ} : List A → List A → Type ℓ where
  done : IsSubsequence [] []
  keep : {x : A} {xs ys : List A} → IsSubsequence xs ys → IsSubsequence (x ∷ xs) (x ∷ ys)
  skip : {y : A} {xs ys : List A} → IsSubsequence xs ys → IsSubsequence xs (y ∷ ys)

pub data Op {ℓ} (A : Type ℓ) : Type ℓ where
  sends : A → Op A
  receives : Op A

-- The channel, what the reader has got, and how many parcels were dropped.
pub record Link {ℓ} (A : Type ℓ) : Type ℓ where
  pub channel : Channel A
  pub delivered : List A
  pub dropped : ℕ

module _ {ℓ} {A : Type ℓ} where
  pub IsSubsequence-snoc :
      {xs ys : List A} (x : A) → IsSubsequence xs ys → IsSubsequence (xs ++ x ∷ []) (ys ++ x ∷ [])
  IsSubsequence-snoc x done = keep done
  IsSubsequence-snoc x (keep s) = keep (IsSubsequence-snoc x s)
  IsSubsequence-snoc x (skip s) = skip (IsSubsequence-snoc x s)

  pub IsSubsequence-append :
      {xs ys : List A} (zs : List A) → IsSubsequence xs ys → IsSubsequence xs (ys ++ zs)
  IsSubsequence-append [] done = done
  IsSubsequence-append (z ∷ zs) done = skip (IsSubsequence-append zs done)
  IsSubsequence-append zs (keep s) = keep (IsSubsequence-append zs s)
  IsSubsequence-append zs (skip s) = skip (IsSubsequence-append zs s)

  IsSubsequence-tail : {x : A} {xs ys : List A} → IsSubsequence (x ∷ xs) ys → IsSubsequence xs ys
  IsSubsequence-tail (keep s) = skip s
  IsSubsequence-tail (skip s) = skip (IsSubsequence-tail s)

  pub IsSubsequence-trans :
      {ys zs : List A}
      → IsSubsequence ys zs
      → {xs : List A} → IsSubsequence xs ys
      → IsSubsequence xs zs
  IsSubsequence-trans (skip t) s = skip (IsSubsequence-trans t s)
  IsSubsequence-trans done s = s
  IsSubsequence-trans (keep t) (keep s) = keep (IsSubsequence-trans t s)
  IsSubsequence-trans (keep t) (skip s) = skip (IsSubsequence-trans t s)

  pub IsSubsequence-refl : (xs : List A) → IsSubsequence xs xs
  IsSubsequence-refl [] = done
  IsSubsequence-refl (x ∷ xs) = keep (IsSubsequence-refl xs)

  drop-IsSubsequence : (n : ℕ) (xs : List A) → IsSubsequence (drop n xs) xs
  drop-IsSubsequence zero xs = IsSubsequence-refl xs
  drop-IsSubsequence (suc n) [] = done
  drop-IsSubsequence (suc n) (x ∷ xs) = skip (drop-IsSubsequence n xs)

  pub append-IsSubsequence :
      (ds : List A) {xs ys : List A} → IsSubsequence xs ys → IsSubsequence (ds ++ xs) (ds ++ ys)
  append-IsSubsequence [] s = s
  append-IsSubsequence (d ∷ ds) s = keep (append-IsSubsequence ds s)

  -- A receive on an empty channel waits, and changes nothing.
  unfoldable pub step : Link A → Op A → Link A
  step l (sends x) =
      let (c, ok, d) = send l.channel x in record l { channel = c; dropped = l.dropped + d }
  step l receives = elim (receive l.channel) [
    | none ↦ l
    | some (x, c) ↦ record l { channel = c; delivered = l.delivered ++ x ∷ [] }
  ]

  unfoldable pub run : Link A → List (Op A) → Link A
  run l [] = l
  run l (o ∷ ops) = run (step l o) ops

  -- What was sent, in order.
  abbrev pub sent : List (Op A) → List A
  sent [] = []
  sent (sends x ∷ ops) = x ∷ sent ops
  sent (receives ∷ ops) = sent ops

  abbrev pub opened : ℕ → Link A
  opened capacity = record { channel = new_channel capacity; delivered = []; dropped = 0 }

  pub record InOrder (capacity : ℕ) (sent : List A) (l : Link A) : Type ℓ where
    pub same_capacity : l.channel.capacity ≡ capacity
    pub fits : length l.channel.queue ≤ capacity
    pub order : IsSubsequence (l.delivered ++ l.channel.queue) sent
    pub account : length sent ≡ length l.delivered + length l.channel.queue + l.dropped

  -- What a send takes from the queue, in one place.
  dropped_by : Channel A → ℕ
  dropped_by c = if ltb (length c.queue) c.capacity then 0 else c.capacity - c.capacity / 2

  length-after_send :
      (c : Channel A) (x : A)
      → 0 < c.capacity
      → length c.queue ≤ c.capacity
      → (length (drop (dropped_by c) c.queue ++ x ∷ []) ≤ c.capacity)
        × (length (drop (dropped_by c) c.queue ++ x ∷ []) + dropped_by c ≡ length c.queue + 1)
  unfolding dropped_by
  length-after_send c x h l = ground (
    arith,
    length-append (drop (dropped_by c) c.queue) (x ∷ []),
    length-drop (dropped_by c) c.queue,
  )

  send-dropped_by :
      (c : Channel A) (x : A)
      → 0 < c.capacity
      → length c.queue ≤ c.capacity
      → send c x ≡ (
        record { capacity = c.capacity; queue = drop (dropped_by c) c.queue ++ x ∷ [] },
        true,
        dropped_by c,
      )
  unfolding dropped_by
  send-dropped_by c x h l = send_lem c x h l

  -- What was taken out of a channel and what is in it stay a subsequence of what was sent.
  pub send-Ordered :
      (out xs : List A) (c : Channel A) (x : A)
      → 0 < c.capacity
      → length c.queue ≤ c.capacity
      → IsSubsequence (out ++ c.queue) xs
      → ((send c x).0.capacity ≡ c.capacity)
        × (length (send c x).0.queue ≤ c.capacity)
        × IsSubsequence (out ++ (send c x).0.queue) (xs ++ x ∷ [])
  send-Ordered out xs c x h l s = rw (send-dropped_by c x h l) (
    refl,
    (length-after_send c x h l).0,
    rw (← append_assoc out (drop (dropped_by c) c.queue) (x ∷ [])) (
        IsSubsequence-snoc x (
          IsSubsequence-trans s
            (append-IsSubsequence out (drop-IsSubsequence (dropped_by c) c.queue)))),
  )

  pub sends-InOrder :
      (capacity : ℕ) (xs : List A) (l : Link A) (x : A)
      → 0 < capacity
      → InOrder capacity xs l
      → InOrder capacity (xs ++ x ∷ []) (step l (sends x))
  unfolding step
  sends-InOrder capacity xs l x h v =
      let c = l.channel in
      let room : 0 < c.capacity = ground (arith, v.same_capacity) in
      let full : length c.queue ≤ c.capacity = ground (arith, v.same_capacity) in
      let (small, all) = length-after_send c x room full in
      rw (send-dropped_by c x room full, step)
        (record {
          same_capacity = v.same_capacity;
          fits = rw (← v.same_capacity) small;
          order =
              rw (send-dropped_by c x room full) at
                (send-Ordered l.delivered xs c x room full v.order).2;
          account = omega (arith, length-append xs (x ∷ []), v.account, all);
        })

  receives-InOrder :
      (capacity : ℕ) (xs : List A) (l : Link A) (q : List A)
      → l.channel.queue ≡ q
      → InOrder capacity xs l
      → InOrder capacity xs (step l receives)
  unfolding step receive
  receives-InOrder capacity xs l [] e v = rw (e, step, receive) v
  receives-InOrder capacity xs l (x ∷ q) e v =
      rw (e, step, receive)
        (record {
          same_capacity = v.same_capacity;
          fits = ground (arith, v.fits);
          order = rw append_assoc (rw e at v.order);
          account = ground (arith, v.account, length-append l.delivered (x ∷ []));
        })

  run-InOrder_from :
      (capacity : ℕ) (xs : List A) (l : Link A) (ops : List (Op A))
      → 0 < capacity
      → InOrder capacity xs l
      → InOrder capacity (xs ++ sent ops) (run l ops)
  unfolding run
  run-InOrder_from capacity xs l [] h v = rw append-nil v
  run-InOrder_from capacity xs l (sends x ∷ ops) h v = rw (← append_assoc xs (x ∷ []) (sent ops)) (
      run-InOrder_from capacity (xs ++ x ∷ []) (step l (sends x)) ops h
        (sends-InOrder capacity xs l x h v))
  run-InOrder_from capacity xs l (receives ∷ ops) h v =
      run-InOrder_from capacity xs (step l receives) ops h
        (receives-InOrder capacity xs l l.channel.queue refl v)

  -- Over any sends and receives on a new channel with room for one parcel at least, the channel
  -- never holds more than its capacity; what was delivered and what is still queued are, in this
  -- order, parcels that were sent, in the order in which they were sent; and every parcel that
  -- was sent is delivered, queued or counted as dropped.
  pub run-InOrder :
      (capacity : ℕ) (ops : List (Op A))
      → 0 < capacity
      → InOrder capacity (sent ops) (run (opened capacity) ops)
  unfolding new_channel
  run-InOrder capacity ops h =
      run-InOrder_from capacity [] (opened capacity) ops h
        (record { same_capacity = refl; fits = omega arith; order = done; account = omega arith })
