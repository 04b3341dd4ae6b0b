-- ===== src/Link/Steps.antt =====
-- That each event of two joined peers keeps the parcels between them in order.
use mathlib.Core.List.{append_assoc, append-nil}
use factom_p2p.Prelude.{
  ℕ, ◌<◌, ◌≡◌, ◌∙◌, refl, sym, ap, Bool, true, false, Option, none, some, List, [], ◌∷◌, ◌++◌,
  arith, All, Bool-cases, Option-cases, inl, inr, not,
}
use factom_p2p.Parcel.{Parcel}
use factom_p2p.ParcelChannel as Channel
use factom_p2p.ParcelChannel.{Channel}
use factom_p2p.ParcelChannel.Stream.{IsSubsequence, done, keep, skip}
use factom_p2p.Protocol.Interface.{Protocol}
use factom_p2p.PeerLoops as Peer
use factom_p2p.PeerLoops.{PeerState, new_peer, stop, transmit, transmit_taken, remember}
use factom_p2p.PeerLoops.Stopping as Stopping
use factom_p2p.PeerLoops.Writing.{Ordered, step-Ordered, sent}
use factom_p2p.Link.{Link, sends, hangs_up, transmits, write, read_line, read, deliver, step}
use factom_p2p.Link.Flows.{
  IsValid, Flows, write-Flows, receive-Flows, deliver-Flows, stop-Flows, read-Passed,
}

All-IsSubsequence :
    (Q : Parcel → Type 0) {xs ys : List Parcel} → IsSubsequence xs ys → All Q ys → All Q xs
All-IsSubsequence Q done h = tt
All-IsSubsequence Q (keep s) h = (h.0, All-IsSubsequence Q s h.1)
All-IsSubsequence Q (skip s) h = All-IsSubsequence Q s h.1

All-right : (Q : Parcel → Type 0) (xs ys : List Parcel) → All Q (xs ++ ys) → All Q ys
All-right Q [] ys h = h
All-right Q (x ∷ xs) ys h = All-right Q xs ys h.1

abbrev back : Option (Parcel × Channel Parcel) → List Parcel
back none = []
back (some (p, c)) = p ∷ c.queue

back-receive : (c : Channel Parcel) (q : List Parcel) → c.queue ≡ q → back (Channel.receive c) ≡ q
unfolding Channel.receive
back-receive c [] e = rw (e, Channel.receive) refl
back-receive c (x ∷ xs) e = rw (e, Channel.receive) refl

receive_queue :
    (c c' : Channel Parcel) (p : Parcel) → Channel.receive c ≡ some (p, c') → c.queue ≡ p ∷ c'.queue
receive_queue c c' p e = sym (back-receive c c.queue refl) ∙ ap back e

module _ (P : Protocol) where
  -- What the protocol writes for the parcels.
  pub data Carries : List Parcel → List P.Line → Type 0 where
    clear : Carries [] []
    carries :
        {p : Parcel} {ps : List Parcel} {w line : List P.Line}
        → P.send p ≡ some w
        → Carries ps line
        → Carries (p ∷ ps) (w ++ line)

  Carries-snoc :
      {ps : List Parcel} {line : List P.Line} (p : Parcel) (w : List P.Line)
      → P.send p ≡ some w
      → Carries ps line
      → Carries (ps ++ p ∷ []) (line ++ w)
  Carries-snoc p w s clear = rw (sym (append-nil w)) (carries s clear)
  Carries-snoc p w s (carries {w = v} {line = line} t c) =
      rw (append_assoc v line w) (carries t (Carries-snoc p w s c))

  pub record Invariant (capacity : ℕ) (xs : List Parcel) (l : Link P) : Type 0 where
    pub flight : List Parcel
    pub on_line : Carries flight l.line
    pub flows : Flows l.sender.written l.received l.receiver flight
    pub ordered : Ordered capacity xs l.sender

  send-written : (a : PeerState) (p : Parcel) → (Peer.send a p).written ≡ a.written
  unfolding Peer.send
  send-written a p = ground arith

  stop-written : (a : PeerState) → (stop a).written ≡ a.written
  unfolding stop
  stop-written a = ground arith

  fails-written :
      (a : PeerState) (taken : Parcel × Channel Parcel)
      → (transmit_taken false a (some taken)).written ≡ a.written
  unfolding transmit_taken
  fails-written a (p, queue) = stop-written (record a { send = queue })

  module _ (capacity : ℕ) (room : 0 < capacity) (xs : List Parcel) where
    pub sends-Invariant :
        (l : Link P) (p : Parcel)
        → Invariant capacity xs l
        → Invariant capacity (xs ++ p ∷ []) (step P l (sends p))
    unfolding step Stopping.step sent
    sends-Invariant l p v = record {
      flight = v.flight;
      on_line = v.on_line;
      flows = rw (send-written l.sender p) v.flows;
      ordered = step-Ordered capacity xs l.sender (Stopping.sends p) room v.ordered;
    }

    transmit-Ordered :
        (a : PeerState) (ok : Bool) (o : Option (Parcel × Channel Parcel))
        → Channel.receive a.send ≡ o
        → Ordered capacity xs a
        → Ordered capacity xs (transmit_taken ok a o)
    unfolding Stopping.step transmit sent
    transmit-Ordered a ok o e v =
        rw (← e, ← append-nil xs) (step-Ordered capacity xs a (Stopping.transmits ok) room v)

    write-Invariant :
        (l : Link P) (o : Option (Parcel × Channel Parcel))
        → Channel.receive l.sender.send ≡ o
        → All IsValid xs
        → Invariant capacity xs l
        → Invariant capacity xs (write P l o)
    unfolding write transmit_taken
    write-Invariant l none e h v = v
    write-Invariant l (some (p, queue)) e h v =
        let q : l.sender.send.queue ≡ p ∷ queue.queue = receive_queue l.sender.send queue p e in
        let ok : All IsValid (p ∷ queue.queue) = rw q at (
          All-right IsValid l.sender.written l.sender.send.queue
            (All-IsSubsequence IsValid v.ordered.order h)) in
        elim (Option-cases (P.send p)) [
          | inl fails ↦
              rw (fails, write)
                (record {
                  flight = v.flight;
                  on_line = v.on_line;
                  flows = rw (fails-written l.sender (p, queue)) v.flows;
                  ordered = transmit-Ordered l.sender false (some (p, queue)) e v.ordered;
                })
          | inr (w, sends_it) ↦
              rw (sends_it, write)
                (record {
                  flight = v.flight ++ p ∷ [];
                  on_line = Carries-snoc p w sends_it v.on_line;
                  flows =
                      write-Flows l.sender.written l.received l.receiver v.flight p ok.0 v.flows;
                  ordered = transmit-Ordered l.sender true (some (p, queue)) e v.ordered;
                })
        ]

    pub hangs_up-Invariant :
        (l : Link P) → Invariant capacity xs l → Invariant capacity xs (step P l hangs_up)
    unfolding step Stopping.step sent
    hangs_up-Invariant l v = record {
      flight = v.flight;
      on_line = v.on_line;
      flows = rw (stop-written l.sender) v.flows;
      ordered =
          rw (← append-nil xs) (step-Ordered capacity xs l.sender Stopping.stops room v.ordered);
    }

    pub transmits-Invariant :
        (l : Link P)
        → All IsValid xs
        → Invariant capacity xs l
        → Invariant capacity xs (step P l transmits)
    unfolding step
    transmits-Invariant l h v = elim (Bool-cases l.sender.stopped) [
      | inl ended ↦ simp (ended, step) v
      | inr runs ↦ simp (runs, step) (write-Invariant l (Channel.receive l.sender.send) refl h v)
    ]

    -- The receiving peer is stopped, or an error stops it.
    pub drops_out-Invariant :
        (l : Link P)
        → Invariant capacity xs l
        → Invariant capacity xs (record l { receiver = stop l.receiver })
    drops_out-Invariant l v = record {
      flight = v.flight;
      on_line = v.on_line;
      flows = stop-Flows l.sender.written l.received l.receiver v.flight v.flows;
      ordered = v.ordered;
    }

    read_line-Invariant :
        (l : Link P) (flight : List Parcel) (line : List P.Line)
        → l.received ≡ none
        → Carries flight line
        → Flows l.sender.written none l.receiver flight
        → Ordered capacity xs l.sender
        → Invariant capacity xs (record l { line = line })
        → Invariant capacity xs (read_line P (record l { line = line }) (P.receive line))
    unfolding read_line Peer.read
    read_line-Invariant l [] line e clear f o v =
        rw P.receive_nothing (elim (Bool-cases (not l.sender.stopped)) [
          | inl waits ↦ simp waits v
          | inr closed ↦ simp closed (drops_out-Invariant (record l { line = [] }) v)
        ])
    read_line-Invariant l (p ∷ flight) line e (carries {w = w} {line = rest} s c) f o v =
        let (address, r) = P.receive_sent p w rest f.flight_valid.0 s in
        rw r (record {
          flight = flight;
          on_line = c;
          flows = receive-Flows l.sender.written l.receiver flight p address f;
          ordered = o;
        })

    pub receives-Invariant :
        (l : Link P) (o : Option Parcel)
        → l.received ≡ o
        → Invariant capacity xs l
        → Invariant capacity xs (read P l o)
    unfolding read
    receives-Invariant l (some p) e v = v
    receives-Invariant l none e v = elim (Bool-cases l.receiver.stopped) [
      | inl ended ↦ simp (ended, read) v
      | inr runs ↦
          simp (runs, read)
            (read_line-Invariant l v.flight l.line e v.on_line (rw e at v.flows) v.ordered v)
    ]

    pub delivers-Invariant :
        (wins : Bool) (l : Link P) (o : Option Parcel)
        → l.received ≡ o
        → Invariant capacity xs l
        → Invariant capacity xs (deliver P wins l o)
    unfolding deliver
    delivers-Invariant wins l none e v = v
    delivers-Invariant wins l (some p) e v =
        let f : Flows l.sender.written (some p) l.receiver v.flight = rw e at v.flows in
        record {
          flight = v.flight;
          on_line = v.on_line;
          flows =
              deliver-Flows l.sender.written l.receiver (Peer.read wins l.receiver (some p)).0
                v.flight p (read-Passed wins l.receiver p f.held_valid.0) f;
          ordered = v.ordered;
        }
