-- ===== src/PeerLoops/Stopping.antt =====
-- How often a peer reports that it is offline, and what it takes after that.
use factom_p2p.Prelude.{
  ℕ, ◌≡◌, ◌⊎◌, refl, Bool, true, false, Option, none, some, List, [], ◌∷◌, arith, Bool-cases, inl,
  inr, if◌then◌else◌,
}
use factom_p2p.Net.{GoString}
use factom_p2p.Parcel.{Parcel, ParcelError, valid}
use factom_p2p.ParcelChannel as Channel
use factom_p2p.PeerLoops.{
  PeerState, new_peer, read, read_checked, send, transmit, transmit_taken, remember, deliver, stop,
  quit,
}

pub data Op : Type 0 where
  sends : Parcel → Op
  stops : Op
  reads : Bool → Option Parcel → Op
  transmits : Bool → Op
  -- the network stops; sendLoop ends, and calls Stop in a later step
  quits : Op

unfoldable pub step : PeerState → Op → PeerState
unfolding stop send read transmit quit
step p (sends parcel) = send p parcel
step p stops = stop p
step p (reads wins received) = (read wins p received).0
step p (transmits sent) = transmit sent p
step p quits = quit p

unfoldable pub run : PeerState → List Op → PeerState
unfolding step
run p [] = p
run p (op ∷ ops) = run (step p op) ops

-- Whether the network is stopped in between.
unfoldable pub is_quit : List Op → Bool
is_quit [] = false
is_quit (quits ∷ ops) = true
is_quit (sends parcel ∷ ops) = is_quit ops
is_quit (stops ∷ ops) = is_quit ops
is_quit (reads wins received ∷ ops) = is_quit ops
is_quit (transmits sent ∷ ops) = is_quit ops

-- The reports so far are one if the peer is stopped, and none otherwise; or the network is stopped,
-- and there are none.
abbrev Reported : Bool → PeerState → Type 0
Reported over p =
    ((p.reports ≡ (if p.stopped then 1 else 0)) ⊎ ((p.reports ≡ 0) × (over ≡ true)))
    × ((p.reporting ≡ true) ⊎ (over ≡ true))

module _ (over : Bool) where
  stop-Reported : (p : PeerState) → Reported over p → Reported over (stop p)
  unfolding stop
  stop-Reported p h = ground arith

  send-Reported :
      (p : PeerState) (parcel : Parcel) → Reported over p → Reported over (send p parcel)
  unfolding send
  send-Reported p parcel h = elim (Bool-cases p.stopped) [
    | inl s ↦ rw s (rw s at h)
    | inr s ↦ rw s (rw s at h)
  ]

  remember-Reported :
      (p : PeerState) (msg : Parcel) → Reported over p → Reported over (remember p msg)
  unfolding remember
  remember-Reported p msg h = ground arith

  deliver-Reported :
      (wins : Bool) (p : PeerState) (parcel : Parcel)
      → Reported over p
      → Reported over (deliver wins p parcel).0
  unfolding deliver
  deliver-Reported wins p parcel h = elim (Bool-cases p.stopped) [
    | inl s ↦ elim (Bool-cases wins) [
      | inl w ↦ rw (s, w) (rw s at h)
      | inr l ↦ rw (s, l) (rw s at h)
    ]
    | inr s ↦ rw s (rw s at h)
  ]

  read-Reported :
      (wins : Bool) (p : PeerState) (received : Option Parcel)
      → Reported over p
      → Reported over (read wins p received).0
  unfolding read read_checked
  read-Reported wins p none h = stop-Reported p h
  read-Reported wins p (some msg) h = checked (valid (some msg))
    where
      continued :
          Reported over (deliver wins (remember p msg) (record msg { address = p.hash })).0
          → Reported over (read_checked wins p msg none).0
      continued k =
          elim (Bool-cases (deliver wins (remember p msg) (record msg { address = p.hash })).1) [
            | inl s ↦ rw s k
            | inr s ↦ rw s (stop-Reported _ k)
          ]

      checked : (e : Option ParcelError) → Reported over (read_checked wins p msg e).0
      checked (some e) = stop-Reported p h
      checked none = continued (
          deliver-Reported wins (remember p msg) (record msg { address = p.hash })
            (remember-Reported p msg h))

  transmit-Reported :
      (sent : Bool) (p : PeerState) → Reported over p → Reported over (transmit sent p)
  unfolding transmit transmit_taken
  transmit-Reported sent p h = taken (Channel.receive p.send)
    where
      taken :
          (o : Option (Parcel × Channel.Channel Parcel)) → Reported over (transmit_taken sent p o)
      taken none = h
      taken (some (parcel, queue)) = elim (Bool-cases sent) [
        | inl s ↦ rw s h
        | inr s ↦ rw s (stop-Reported (record p { send = queue }) h)
      ]

later : (p : PeerState) (ops : List Op) → Reported true p → Reported true (run p ops)
unfolding run step quit
later p [] h = h
later p (quits ∷ ops) h = later (quit p) ops (h.0, inr refl)
later p (sends parcel ∷ ops) h = later (send p parcel) ops (send-Reported true p parcel h)
later p (stops ∷ ops) h = later (stop p) ops (stop-Reported true p h)
later p (reads wins received ∷ ops) h =
    later (read wins p received).0 ops (read-Reported true wins p received h)
later p (transmits sent ∷ ops) h = later (transmit sent p) ops (transmit-Reported true sent p h)

run-Reported :
    (p : PeerState) (ops : List Op) → Reported false p → Reported (is_quit ops) (run p ops)
unfolding run step quit is_quit
run-Reported p [] h = h
run-Reported p (quits ∷ ops) h = later (quit p) ops (begun h.0, inr refl)
  where
    begun :
        (p.reports ≡ (if p.stopped then 1 else 0)) ⊎ ((p.reports ≡ 0) × (false ≡ true))
        → (p.reports ≡ (if p.stopped then 1 else 0)) ⊎ ((p.reports ≡ 0) × (true ≡ true))
    begun (inl e) = inl e
    begun (inr e) = cc
run-Reported p (sends parcel ∷ ops) h =
    run-Reported (send p parcel) ops (send-Reported false p parcel h)
run-Reported p (stops ∷ ops) h = run-Reported (stop p) ops (stop-Reported false p h)
run-Reported p (reads wins received ∷ ops) h =
    run-Reported (read wins p received).0 ops (read-Reported false wins p received h)
run-Reported p (transmits sent ∷ ops) h =
    run-Reported (transmit sent p) ops (transmit-Reported false sent p h)

-- Whatever is sent, received and stopped, and in whatever order, a peer reports that it is offline
-- once if it was stopped, for an error or by a call, and not at all otherwise; or the network was
-- stopped, and it does not report at all.
pub run-reports :
    (hash : GoString) (capacity : ℕ) (resend_filter : Bool) (ops : List Op)
    → let p = run (new_peer hash capacity resend_filter) ops in
      (p.reports ≡ (if p.stopped then 1 else 0)) ⊎ ((p.reports ≡ 0) × (is_quit ops ≡ true))
unfolding new_peer
run-reports hash capacity resend_filter ops =
    (run-Reported (new_peer hash capacity resend_filter) ops (inl refl, inl refl)).0
