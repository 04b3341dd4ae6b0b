-- ===== src/Controller/Data/Requests.antt =====
-- How often a peer's requests for peers are answered.
use factom_p2p.Prelude.{
  ℕ, ◌+◌, ◌≤◌, ◌≡◌, refl, Bool, true, false, Option, none, some, List, [], ◌∷◌, lookup, leb, ◌==◌,
  ==_iff, SpacedFrom, arith, string_eq, Bool-cases, Option-cases, inl, inr, if◌then◌else◌,
}
use factom_p2p.Net.{GoString}
use factom_p2p.Parcel.{
  Parcel, is_application_message, type_ping, type_peer_request, type_peer_response,
}
use factom_p2p.ParcelChannel.{Channel, offer}
use factom_p2p.PeerStore.{Peer}
use factom_p2p.Controller.Data.{
  Data, Effect, PeerParcel, handle, manage_data, forward, dispatch, handle_request, handle_response,
  respond, handle_other, assign, no_effect, sends, shares, forwards,
}

-- The times at which shares are sent to one peer.
abbrev time_if : Bool → ℕ → List ℕ → List ℕ
time_if true now times = now ∷ times
time_if false now times = times

abbrev is_share_to : ℕ → Effect → Bool
is_share_to ref no_effect = false
is_share_to ref (sends p parcel) = false
is_share_to ref (shares p) = p.ref == ref
is_share_to ref (forwards n) = false

unfoldable pub share_times : ℕ → List (ℕ × Effect) → List ℕ
share_times ref [] = []
share_times ref ((now, fx) ∷ fxs) = time_if (is_share_to ref fx) now (share_times ref fxs)

-- A step either answers the peer's request, after the interval and with its time noted, or keeps
-- the time of the peer's last request.
abbrev Times : ℕ → ℕ → ℕ → Data → Option (Data × Effect) → Type 0
Times interval now ref d none = Unit
Times interval now ref d (some (d', fx)) =
    if is_share_to ref fx
    then (d.last_request ref + interval ≤ now) × (d'.last_request ref ≡ now)
    else d'.last_request ref ≡ d.last_request ref

module _ (interval now ref : ℕ) (d : Data) where
  respond-Times :
      (hash : GoString) (parcel : Parcel) (l : Option (Channel Parcel))
      → Times interval now ref d (respond d hash parcel l)
  unfolding respond
  respond-Times hash parcel none = refl
  respond-Times hash parcel (some async) = elim (Bool-cases (offer async parcel).1) [
    | inl taken ↦ rw taken refl
    | inr full ↦ rw full tt
  ]

  request-Times :
      (peer : Peer) → Times interval now ref d (some (handle_request interval now d peer))
  unfolding handle_request assign
  request-Times peer = elim (Bool-cases (leb (d.last_request peer.ref + interval) now)) [
    | inl late ↦ elim (Bool-cases (peer.ref == ref)) [
      | inl mine ↦
          let e : peer.ref ≡ ref = ground (arith, ==_iff peer.ref ref) in
          let waited : d.last_request peer.ref + interval ≤ now = ground arith in
          let noted : assign peer.ref now d.last_request ref ≡ now =
            ground (arith, ==_iff ref peer.ref) in
          rw (late, mine) (rw e at waited, noted)
      | inr other ↦ rw (late, other) (ground (arith, ==_iff ref peer.ref, ==_iff peer.ref ref))
    ]
    | inr early ↦ rw early refl
  ]

  other-Times :
      (peer : Option Peer) (parcel : Parcel)
      → Times interval now ref d (handle_other interval now d peer parcel)
  unfolding handle_other dispatch handle_response
  other-Times none parcel = refl
  other-Times (some peer) parcel = elim (Bool-cases (parcel.ptype == type_ping)) [
    | inl a ↦ rw a refl
    | inr a ↦ elim (Bool-cases (parcel.ptype == type_peer_request)) [
      | inl b ↦ rw (a, b) (request-Times peer)
      | inr b ↦ elim (Bool-cases (parcel.ptype == type_peer_response)) [
        | inl c ↦ rw (a, b, c) (respond-Times peer.hash parcel (lookup peer.hash d.listeners))
        | inr c ↦ rw (a, b, c) refl
      ]
    ]
  ]

  handle-Times : (pp : PeerParcel) → Times interval now ref d (handle interval now d pp)
  unfolding handle forward
  handle-Times pp = elim (Bool-cases (is_application_message pp.parcel)) [
    | inl app ↦ rw app refl
    | inr other ↦ rw other (other-Times pp.peer pp.parcel)
  ]

-- However many requests a peer sends, the shares that it is sent in answer are PeerRequestInterval
-- or more apart, the first of them that long after the request that was noted before.
pub share_times-SpacedFrom :
    (interval ref : ℕ) (d : Data) (pps : List (ℕ × PeerParcel))
    → SpacedFrom interval (d.last_request ref) (share_times ref (manage_data interval d pps).1)
unfolding manage_data share_times
share_times-SpacedFrom interval ref d [] = tt
share_times-SpacedFrom interval ref d ((now, pp) ∷ pps) =
    elim (Option-cases (handle interval now d pp)) [
      | inl e ↦ rw (e, manage_data) tt
      | inr ((d', fx), e) ↦
          let step : Times interval now ref d (some (d', fx)) =
            rw e at (handle-Times interval now ref d pp) in
          rw (e, manage_data) (next d' fx step (share_times-SpacedFrom interval ref d' pps))
    ]
  where
    next :
        (d' : Data) (fx : Effect)
        → Times interval now ref d (some (d', fx))
        → SpacedFrom interval
            (d'.last_request ref)
            (share_times ref (manage_data interval d' pps).1)
        → SpacedFrom interval
            (d.last_request ref)
            (time_if (is_share_to ref fx) now (share_times ref (manage_data interval d' pps).1))
    next d' fx step rest = elim (Bool-cases (is_share_to ref fx)) [
      | inl share ↦
          let s : (d.last_request ref + interval ≤ now) × (d'.last_request ref ≡ now) =
            rw share at step in
          rw share (s.0, rw s.1 at rest)
      | inr quiet ↦
          let s : d'.last_request ref ≡ d.last_request ref = rw quiet at step in
          rw quiet (rw s at rest)
    ]
