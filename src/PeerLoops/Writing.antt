-- ===== src/PeerLoops/Writing.antt =====
-- The order of what a peer writes to its connection.
use mathlib.Core.List.{append_assoc, append-nil}
use factom_p2p.Prelude.{
  ℕ, ◌≤◌, ◌<◌, ◌≡◌, ◌∙◌, refl, Bool, Option, none, some, List, [], ◌∷◌, ◌++◌, length, arith,
  Bool-cases, inl, inr,
}
use factom_p2p.Net.{GoString}
use factom_p2p.Parcel.{Parcel, ParcelError, valid}
use factom_p2p.ParcelChannel as Channel
use factom_p2p.ParcelChannel.{Channel, new_channel}
use factom_p2p.ParcelChannel.Stream.{
  IsSubsequence, done, skip, send-Ordered, IsSubsequence-append, IsSubsequence-trans,
  append-IsSubsequence, IsSubsequence-refl,
}
use factom_p2p.PeerLoops.{
  PeerState, new_peer, read, read_checked, send, transmit, transmit_taken, remember, deliver, stop,
  quit,
}
use factom_p2p.PeerLoops.Stopping.{Op, sends, stops, reads, transmits, quits, step, run}

-- The parcels that Send was called with.
unfoldable pub sent : List Op → List Parcel
sent [] = []
sent (sends parcel ∷ ops) = parcel ∷ sent ops
sent (stops ∷ ops) = sent ops
sent (reads wins received ∷ ops) = sent ops
sent (transmits ok ∷ ops) = sent ops
sent (quits ∷ ops) = sent ops

pub record Ordered (capacity : ℕ) (xs : List Parcel) (p : PeerState) : Type 0 where
  pub same_capacity : p.send.capacity ≡ capacity
  pub fits : length p.send.queue ≤ capacity
  pub order : IsSubsequence (p.written ++ p.send.queue) xs

-- What is queued and written is left alone.
abbrev Same : PeerState → PeerState → Type 0
Same p q = (q.send ≡ p.send) × (q.written ≡ p.written)

stop-Same : (p : PeerState) → Same p (stop p)
unfolding stop
stop-Same p = elim (Bool-cases p.stopped) [ inl s ↦ rw s (refl, refl) | inr s ↦ rw s (refl, refl) ]

remember-Same : (p : PeerState) (msg : Parcel) → Same p (remember p msg)
unfolding remember
remember-Same p msg = ground arith

deliver-Same : (wins : Bool) (p : PeerState) (parcel : Parcel) → Same p (deliver wins p parcel).0
unfolding deliver
deliver-Same wins p parcel = ground arith

Same-trans : (p q r : PeerState) → Same p q → Same q r → Same p r
Same-trans p q r h k = (k.0 ∙ h.0, k.1 ∙ h.1)

checked-Same :
    (wins : Bool) (p : PeerState) (msg : Parcel) (e : Option ParcelError)
    → Same p (read_checked wins p msg e).0
unfolding read_checked
checked-Same wins p msg (some e) = stop-Same p
checked-Same wins p msg none =
    let kept = remember p msg in
    let parcel = record msg { address = p.hash } in
    let given = (deliver wins kept parcel).0 in
    let same = Same-trans p kept given (remember-Same p msg) (deliver-Same wins kept parcel) in
    elim (Bool-cases (deliver wins kept parcel).1) [
      | inl s ↦ rw s same
      | inr s ↦ rw s (Same-trans p given (stop given) same (stop-Same given))
    ]

read-Same :
    (wins : Bool) (p : PeerState) (received : Option Parcel) → Same p (read wins p received).0
unfolding read
read-Same wins p none = stop-Same p
read-Same wins p (some msg) = checked-Same wins p msg (valid (some msg))

Same-Ordered :
    (capacity : ℕ) (xs : List Parcel) (p q : PeerState)
    → Same p q
    → Ordered capacity xs p
    → Ordered capacity xs q
Same-Ordered capacity xs p q h v = record {
  same_capacity = rw h.0 v.same_capacity;
  fits = rw h.0 v.fits;
  order = rw (h.0, h.1) v.order;
}

sends-Ordered :
    (capacity : ℕ) (xs : List Parcel) (p : PeerState) (parcel : Parcel)
    → 0 < capacity
    → Ordered capacity xs p
    → Ordered capacity (xs ++ parcel ∷ []) (send p parcel)
unfolding send
sends-Ordered capacity xs p parcel h v = elim (Bool-cases p.stopped) [
  | inl s ↦ rw s (record {
    same_capacity = v.same_capacity;
    fits = v.fits;
    order = IsSubsequence-append (parcel ∷ []) v.order;
  })
  | inr s ↦
      let room : 0 < p.send.capacity = ground (arith, v.same_capacity) in
      let full : length p.send.queue ≤ p.send.capacity = ground (arith, v.same_capacity, v.fits) in
      let (same, small, order) = send-Ordered p.written xs p.send parcel room full v.order in
      rw s (record {
        same_capacity = same ∙ v.same_capacity;
        fits = omega (arith, small, v.same_capacity);
        order = order;
      })
]

receive_empty : (c : Channel Parcel) → c.queue ≡ [] → Channel.receive c ≡ none
unfolding Channel.receive
receive_empty c e = rw (e, Channel.receive) refl

receive_first :
    (c : Channel Parcel) (x : Parcel) (q : List Parcel)
    → c.queue ≡ x ∷ q
    → Channel.receive c ≡ some (x, record { capacity = c.capacity; queue = q })
unfolding Channel.receive
receive_first c x q e = rw (e, Channel.receive) refl

-- Taking the first parcel of the queue, and writing it or not.
first-Ordered :
    (ok : Bool) (capacity : ℕ) (xs q : List Parcel) (x : Parcel) (p : PeerState)
    → p.send.queue ≡ x ∷ q
    → Ordered capacity xs p
    → Ordered capacity xs
        (transmit_taken ok p (some (x, record { capacity = p.send.capacity; queue = q })))
unfolding transmit_taken
first-Ordered ok capacity xs q x p e v =
    let order : IsSubsequence (p.written ++ x ∷ q) xs = rw e at v.order in
    let small : length q ≤ capacity = ground (arith, e, v.fits) in
    elim (Bool-cases ok) [
      | inl s ↦
          rw s (record {
            same_capacity = v.same_capacity;
            fits = small;
            order = rw append_assoc order;
          })
      | inr s ↦
          let rest = record p { send = record { capacity = p.send.capacity; queue = q } } in
          rw s (
            Same-Ordered capacity xs rest (stop rest) (stop-Same rest) (record {
              same_capacity = v.same_capacity;
              fits = small;
              order =
                  IsSubsequence-trans order
                    (append-IsSubsequence p.written (skip (IsSubsequence-refl q)));
            }))
    ]

taken-Ordered :
    (ok : Bool) (capacity : ℕ) (xs q : List Parcel) (p : PeerState)
    → p.send.queue ≡ q
    → Ordered capacity xs p
    → Ordered capacity xs (transmit ok p)
unfolding transmit
taken-Ordered ok capacity xs [] p e v = rw (receive_empty p.send e) v
taken-Ordered ok capacity xs (x ∷ q) p e v =
    rw (receive_first p.send x q e) (first-Ordered ok capacity xs q x p e v)

pub step-Ordered :
    (capacity : ℕ) (xs : List Parcel) (p : PeerState) (op : Op)
    → 0 < capacity
    → Ordered capacity xs p
    → Ordered capacity (xs ++ sent (op ∷ [])) (step p op)
unfolding step sent quit
step-Ordered capacity xs p (sends parcel) h v = sends-Ordered capacity xs p parcel h v
step-Ordered capacity xs p stops h v =
    rw append-nil (Same-Ordered capacity xs p (stop p) (stop-Same p) v)
step-Ordered capacity xs p (reads wins received) h v =
    rw append-nil
      (Same-Ordered capacity xs p (read wins p received).0 (read-Same wins p received) v)
step-Ordered capacity xs p (transmits ok) h v =
    rw append-nil (taken-Ordered ok capacity xs p.send.queue p refl v)
step-Ordered capacity xs p quits h v =
    rw append-nil (Same-Ordered capacity xs p (quit p) (refl, refl) v)

sent-cons : (op : Op) (ops : List Op) → sent (op ∷ ops) ≡ sent (op ∷ []) ++ sent ops
unfolding sent
sent-cons (sends parcel) ops = refl
sent-cons stops ops = refl
sent-cons (reads wins received) ops = refl
sent-cons (transmits ok) ops = refl
sent-cons quits ops = refl

run-Ordered :
    (capacity : ℕ) (xs : List Parcel) (p : PeerState) (ops : List Op)
    → 0 < capacity
    → Ordered capacity xs p
    → Ordered capacity (xs ++ sent ops) (run p ops)
unfolding run sent
run-Ordered capacity xs p [] h v = rw append-nil v
run-Ordered capacity xs p (op ∷ ops) h v =
    rw (sent-cons op ops, ← append_assoc xs (sent (op ∷ [])) (sent ops))
      (run-Ordered capacity (xs ++ sent (op ∷ [])) (step p op) ops h
        (step-Ordered capacity xs p op h v))

-- Over any calls of Send and Stop and any iterations of readLoop and sendLoop, failed writes
-- included, what a new peer has written and what it has queued are, in this order, parcels that
-- Send was called with, none more often and in the order of the calls; the queue keeps its
-- capacity.
pub run-written :
    (hash : GoString) (capacity : ℕ) (resend_filter : Bool) (ops : List Op)
    → 0 < capacity
    → let p = run (new_peer hash capacity resend_filter) ops in
      IsSubsequence (p.written ++ p.send.queue) (sent ops) × (length p.send.queue ≤ capacity)
unfolding new_peer new_channel
run-written hash capacity resend_filter ops h =
    let v =
      run-Ordered capacity [] (new_peer hash capacity resend_filter) ops h
        (record { same_capacity = refl; fits = omega arith; order = done }) in
    (v.order, v.fits)
