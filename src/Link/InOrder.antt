-- ===== src/Link/InOrder.antt =====
-- What arrives over a connection, against what was sent.
use mathlib.Core.List.{append_assoc, append-nil}
use factom_p2p.Prelude.{ℕ, ◌<◌, ◌≡◌, refl, Bool, false, none, List, [], ◌∷◌, ◌++◌, map, arith, All}
use factom_p2p.Net.{GoString}
use factom_p2p.Parcel.{Parcel}
use factom_p2p.ParcelChannel as Channel
use factom_p2p.ParcelChannel.{Channel}
use factom_p2p.ParcelChannel.Stream.{
  IsSubsequence, done, keep, skip, IsSubsequence-append, IsSubsequence-trans, IsSubsequence-refl,
}
use factom_p2p.Protocol.Interface.{Protocol}
use factom_p2p.PeerLoops.{new_peer}
use factom_p2p.Link.{
  Link, Event, sends, hangs_up, transmits, receives, delivers, drops_out, step, run,
}
use factom_p2p.Link.Flows.{content, arrived, IsValid}
use factom_p2p.Link.Steps.{
  Carries, clear, Invariant, sends-Invariant, hangs_up-Invariant, transmits-Invariant,
  receives-Invariant, delivers-Invariant, drops_out-Invariant,
}

-- The parcels that Send was called with.
unfoldable pub sent_over : List Event → List Parcel
sent_over [] = []
sent_over (sends p ∷ es) = p ∷ sent_over es
sent_over (hangs_up ∷ es) = sent_over es
sent_over (transmits ∷ es) = sent_over es
sent_over (receives ∷ es) = sent_over es
sent_over (delivers wins ∷ es) = sent_over es
sent_over (drops_out ∷ es) = sent_over es

All-left : (Q : Parcel → Type 0) (xs ys : List Parcel) → All Q (xs ++ ys) → All Q xs
All-left Q [] ys h = tt
All-left Q (x ∷ xs) ys h = (h.0, All-left Q xs ys h.1)

map-IsSubsequence :
    {xs ys : List Parcel} → IsSubsequence xs ys → IsSubsequence (map content xs) (map content ys)
map-IsSubsequence done = done
map-IsSubsequence (keep s) = keep (map-IsSubsequence s)
map-IsSubsequence (skip s) = skip (map-IsSubsequence s)

prefix-IsSubsequence : (xs ys : List Parcel) → IsSubsequence xs (xs ++ ys)
prefix-IsSubsequence xs ys = IsSubsequence-append ys (IsSubsequence-refl xs)

-- Two new peers and an empty connection; the queues of both hold `capacity` parcels.
unfoldable pub new_link : (P : Protocol) → GoString → GoString → ℕ → Bool → Link P
new_link P sender receiver capacity resend_filter = record {
  sender = new_peer sender capacity resend_filter;
  line = [];
  received = none;
  receiver = new_peer receiver capacity resend_filter;
}

module _ (P : Protocol) (capacity : ℕ) (room : 0 < capacity) where
  run-Invariant :
      (xs : List Parcel) (l : Link P) (events : List Event)
      → All IsValid (xs ++ sent_over events)
      → Invariant P capacity xs l
      → Invariant P capacity (xs ++ sent_over events) (run P l events)
  unfolding run step sent_over
  run-Invariant xs l [] h v = rw append-nil v
  run-Invariant xs l (sends p ∷ es) h v =
      let e = append_assoc xs (p ∷ []) (sent_over es) in
      rw (← e) (
        run-Invariant (xs ++ p ∷ []) (step P l (sends p)) es (rw e h)
          (sends-Invariant P capacity room xs l p v))
  run-Invariant xs l (hangs_up ∷ es) h v =
      run-Invariant xs (step P l hangs_up) es h (hangs_up-Invariant P capacity room xs l v)
  run-Invariant xs l (transmits ∷ es) h v =
      run-Invariant xs (step P l transmits) es h
        (transmits-Invariant P capacity room xs l (All-left IsValid xs (sent_over es) h) v)
  run-Invariant xs l (receives ∷ es) h v =
      run-Invariant xs (step P l receives) es h
        (receives-Invariant P capacity room xs l l.received refl v)
  run-Invariant xs l (delivers wins ∷ es) h v =
      run-Invariant xs (step P l (delivers wins)) es h
        (delivers-Invariant P capacity room xs wins l l.received refl v)
  run-Invariant xs l (drops_out ∷ es) h v =
      run-Invariant xs (step P l drops_out) es h (drops_out-Invariant P capacity room xs l v)

-- `flight` are the parcels on the connection, as the protocol wrote them.
pub record Arrives (P : Protocol) (events : List Event) (l : Link P) : Type 0 where
  pub flight : List Parcel
  pub on_line : Carries P flight l.line
  pub in_order :
      IsSubsequence
        (map content (arrived l.receiver l.received flight))
        (map content (sent_over events))
  pub complete :
      l.receiver.stopped ≡ false
      → map content (arrived l.receiver l.received flight) ≡ map content l.sender.written

-- Whatever the protocol, and however the goroutines of the two peers take their steps, stops of
-- both sides included, for valid parcels and queues that hold one at least: what was delivered, then what was received and is still
-- on the connection, are parcels that Send was called with, in that order and none more often,
-- with their types and payloads; and while the receiving peer is not stopped they are all that was
-- written.
pub run-Arrives :
    (P : Protocol) (sender receiver : GoString) (capacity : ℕ) (resend_filter : Bool)
    (events : List Event)
    → 0 < capacity
    → All IsValid (sent_over events)
    → Arrives P events (run P (new_link P sender receiver capacity resend_filter) events)
unfolding new_link new_peer Channel.new_channel
run-Arrives P sender receiver capacity resend_filter events room h =
    let l = new_link P sender receiver capacity resend_filter in
    let v = run-Invariant P capacity room [] l events h (record {
      flight = [];
      on_line = clear;
      flows = record {
        flight_valid = tt;
        held_valid = tt;
        in_order = done;
        complete = λ runs. refl;
      };
      ordered = record { same_capacity = refl; fits = omega arith; order = done };
    }) in
    let k = run P l events in
    record {
      flight = v.flight;
      on_line = v.on_line;
      in_order =
          IsSubsequence-trans
            (map-IsSubsequence (
              IsSubsequence-trans v.ordered.order
                (prefix-IsSubsequence k.sender.written k.sender.send.queue)))
            v.flows.in_order;
      complete = v.flows.complete;
    }
