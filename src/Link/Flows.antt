-- ===== src/Link/Flows.antt =====
-- What an event makes of the parcels between two peers.
use mathlib.Core.List.{append_assoc}
use factom_p2p.Prelude.{
  ◌≡◌, ◌⊎◌, ◌∙◌, refl, sym, ap, Bool, true, false, Option, none, some, List, [], ◌∷◌, ◌++◌, map,
  arith, All, All-append, Bool-cases, inl, inr,
}
use factom_p2p.Net.{GoString}
use factom_p2p.Parcel.{Parcel, valid}
use factom_p2p.ParcelChannel.Stream.{
  IsSubsequence, IsSubsequence-snoc, keep, skip, IsSubsequence-trans, IsSubsequence-refl,
}
use factom_p2p.PeerLoops as Peer
use factom_p2p.PeerLoops.{PeerState, new_peer, stop, transmit, transmit_taken, remember}

-- A parcel without its address, which not every version sends.
abbrev pub content : Parcel → Parcel
content p = record p { address = [] }

abbrev pub held : Option Parcel → List Parcel
held none = []
held (some p) = p ∷ []

-- What came of the parcels that were written, in this order: those that were delivered, the one
-- that was received, and those on the connection.
abbrev pub arrived : PeerState → Option Parcel → List Parcel → List Parcel
arrived b received flight = b.delivered ++ (held received ++ flight)

abbrev pub IsValid : Parcel → Type 0
IsValid p = valid (some p) ≡ none

address_IsValid :
    (p : Parcel) (address : GoString) → IsValid p → IsValid (record p { address = address })
unfolding valid
address_IsValid p address h = h

move_first :
    (ds fs : List Parcel) (p q : Parcel)
    → content q ≡ content p
    → map content ((ds ++ q ∷ []) ++ fs) ≡ map content (ds ++ p ∷ fs)
move_first [] fs p q e = ap (λ c. c ∷ map content fs) e
move_first (d ∷ ds) fs p q e = ap (λ l. content d ∷ l) (move_first ds fs p q e)

same_first :
    (ds fs : List Parcel) (p q : Parcel)
    → content q ≡ content p
    → map content (ds ++ q ∷ fs) ≡ map content (ds ++ p ∷ fs)
same_first [] fs p q e = ap (λ c. c ∷ map content fs) e
same_first (d ∷ ds) fs p q e = ap (λ l. content d ∷ l) (same_first ds fs p q e)

map-snoc :
    (ds : List Parcel) (p : Parcel) → map content (ds ++ p ∷ []) ≡ map content ds ++ content p ∷ []
map-snoc [] p = refl
map-snoc (d ∷ ds) p = ap (λ l. content d ∷ l) (map-snoc ds p)

arrived-snoc :
    (b : PeerState) (received : Option Parcel) (flight : List Parcel) (p : Parcel)
    → map content (arrived b received (flight ++ p ∷ []))
      ≡ map content (arrived b received flight) ++ content p ∷ []
arrived-snoc b received flight p =
    rw
      (
        ← append_assoc (held received) flight (p ∷ []),
        ← append_assoc b.delivered (held received ++ flight) (p ∷ []),
      )
      (map-snoc (arrived b received flight) p)

-- A valid parcel is delivered, or the peer is stopped.
abbrev pub Passed : PeerState → Parcel → PeerState → Type 0
Passed b p b' =
    ((b'.stopped ≡ b.stopped) × (b'.delivered ≡ b.delivered ++ record p { address = b.hash } ∷ []))
    ⊎ ((b'.stopped ≡ true) × (b'.delivered ≡ b.delivered))

remember-Same :
    (b : PeerState) (p : Parcel)
    → ((remember b p).stopped ≡ b.stopped)
      × ((remember b p).hash ≡ b.hash)
      × ((remember b p).delivered ≡ b.delivered)
unfolding remember
remember-Same b p = (ground arith, ground arith, ground arith)

stopped-stop : (b : PeerState) → (stop b).stopped ≡ true
unfolding stop
stopped-stop b = ground arith

delivered-stop : (b : PeerState) → (stop b).delivered ≡ b.delivered
unfolding stop
delivered-stop b = ground arith

pub read-Passed :
    (wins : Bool) (b : PeerState) (p : Parcel)
    → IsValid p
    → Passed b p (Peer.read wins b (some p)).0
unfolding Peer.read Peer.read_checked Peer.deliver
read-Passed wins b p v =
    let (same_stopped, same_hash, same) = remember-Same b p in
    elim (Bool-cases b.stopped) [
      | inr runs ↦
          let s : (remember b p).stopped ≡ false = same_stopped ∙ runs in
          rw (v, s) (inl (ground arith, rw (same) refl))
      | inl ended ↦
          let s : (remember b p).stopped ≡ true = same_stopped ∙ ended in
          elim (Bool-cases wins) [
            | inl w ↦ rw (v, s, w) (inl (ground arith, rw same refl))
            | inr w ↦
                rw (v, s, w)
                  (inr (stopped-stop (remember b p), delivered-stop (remember b p) ∙ same))
          ]
    ]

without-IsSubsequence :
    (ds fs : List Parcel) (p : Parcel)
    → IsSubsequence (map content (ds ++ fs)) (map content (ds ++ p ∷ fs))
without-IsSubsequence [] fs p = skip (IsSubsequence-refl (map content fs))
without-IsSubsequence (d ∷ ds) fs p = keep (without-IsSubsequence ds fs p)

-- The parcels that were written are those that arrived, up to some that a stopped peer lost.
pub record Flows (written : List Parcel) (received : Option Parcel) (b : PeerState)
    (flight : List Parcel) : Type 0 where
  pub flight_valid : All IsValid flight
  pub held_valid : All IsValid (held received)
  pub in_order : IsSubsequence (map content (arrived b received flight)) (map content written)
  pub complete : b.stopped ≡ false → map content (arrived b received flight) ≡ map content written

pub write-Flows :
    (written : List Parcel) (received : Option Parcel) (b : PeerState) (flight : List Parcel)
    (p : Parcel)
    → IsValid p
    → Flows written received b flight
    → Flows (written ++ p ∷ []) received b (flight ++ p ∷ [])
write-Flows written received b flight p v f = record {
  flight_valid = All-append IsValid flight (p ∷ []) f.flight_valid (v, tt);
  held_valid = f.held_valid;
  in_order =
      rw (arrived-snoc b received flight p, map-snoc written p)
        (IsSubsequence-snoc (content p) f.in_order);
  complete = λ runs.
      rw (arrived-snoc b received flight p, map-snoc written p)
        (ap (λ l. l ++ content p ∷ []) (f.complete runs));
}

pub receive-Flows :
    (written : List Parcel) (b : PeerState) (flight : List Parcel) (p : Parcel) (address : GoString)
    → Flows written none b (p ∷ flight)
    → Flows written (some (record p { address = address })) b flight
receive-Flows written b flight p address f =
    let e = same_first b.delivered flight p (record p { address = address }) refl in
    record {
      flight_valid = f.flight_valid.1;
      held_valid = (address_IsValid p address f.flight_valid.0, tt);
      in_order = rw e f.in_order;
      complete = λ runs. e ∙ f.complete runs;
    }

pub deliver-Flows :
    (written : List Parcel) (b b' : PeerState) (flight : List Parcel) (p : Parcel)
    → Passed b p b'
    → Flows written (some p) b flight
    → Flows written none b' flight
deliver-Flows written b b' flight p (inl (same, more)) f =
    let e = move_first b.delivered flight p (record p { address = b.hash }) refl in
    record {
      flight_valid = f.flight_valid;
      held_valid = tt;
      in_order = rw (more, e) f.in_order;
      complete = λ runs. rw (more, e) (f.complete (sym same ∙ runs));
    }
deliver-Flows written b b' flight p (inr (ended, same)) f = record {
  flight_valid = f.flight_valid;
  held_valid = tt;
  in_order = rw same (IsSubsequence-trans f.in_order (without-IsSubsequence b.delivered flight p));
  complete = λ runs. cc (ended, runs);
}

-- The receiving peer is stopped.
pub stop-Flows :
    (written : List Parcel) (received : Option Parcel) (b : PeerState) (flight : List Parcel)
    → Flows written received b flight
    → Flows written received (stop b) flight
stop-Flows written received b flight f = record {
  flight_valid = f.flight_valid;
  held_valid = f.held_valid;
  in_order = rw (delivered-stop b) f.in_order;
  complete = λ runs. cc (stopped-stop b, runs);
}
