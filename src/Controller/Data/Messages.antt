-- ===== src/Controller/Data/Messages.antt =====
-- What reaches the application through fromNetwork.
use mathlib.Core.List.{append_assoc, append-nil}
use factom_p2p.ParcelChannel.Stream.{Link, InOrder, step, sends-InOrder}
use factom_p2p.Prelude.{
  ℕ, ◌+◌, ◌<◌, ◌++◌, leb, ◌≡◌, refl, true, false, Option, none, some, List, [], ◌∷◌, length, take,
  lookup, string_eq, ◌==◌, arith, Bool-cases, Option-cases, inl, inr, if◌then◌else◌,
}
use factom_p2p.Parcel.{
  Parcel, is_application_message, type_message, type_ping, type_peer_request, type_peer_response,
}
use factom_p2p.Net.{GoString}
use factom_p2p.ParcelChannel.{Channel, offer}
use factom_p2p.PeerStore.{Peer}
use factom_p2p.Controller.Data.{
  Data, Effect, no_effect, sends, shares, forwards, PeerParcel, handle, manage_data, forward,
  dispatch, handle_request, handle_response, respond, handle_other,
}

-- The application parcels among those that arrived, as whole messages.
abbrev pub messages : List (ℕ × PeerParcel) → List Parcel
messages [] = []
messages ((now, pp) ∷ pps) =
    if is_application_message pp.parcel
    then record pp.parcel { ptype = type_message } ∷ messages pps
    else messages pps

-- How many parcels of the application were dropped for an effect, and for all of them.
abbrev pub dropped_by : Effect → ℕ
dropped_by (forwards n) = n
dropped_by no_effect = 0
dropped_by (sends peer parcel) = 0
dropped_by (shares peer) = 0

abbrev pub dropped : List (ℕ × Effect) → ℕ
dropped [] = 0
dropped ((now, fx) ∷ effects) = dropped_by fx + dropped effects

plus_none : (n : ℕ) → n + 0 ≡ n
plus_none n = omega arith

plus_plus : (n a b : ℕ) → n + (a + b) ≡ n + a + b
plus_plus n a b = omega arith

-- The application's channel, what it has received from it, and how many parcels were dropped.
abbrev pub link : Data → List Parcel → ℕ → Link Parcel
link d out n = record { channel = d.from_network; delivered = out; dropped = n }

-- A step that keeps the queue of the application and drops nothing of it.
abbrev Quiet : Data → Option (Data × Effect) → Type 0
Quiet d none = Unit
Quiet d (some (d', fx)) = (d'.from_network ≡ d.from_network) × (dropped_by fx ≡ 0)

module _ (interval now : ℕ) (d : Data) where
  respond-Quiet :
      (hash : GoString) (parcel : Parcel) (l : Option (Channel Parcel))
      → Quiet d (respond d hash parcel l)
  unfolding respond
  respond-Quiet hash parcel none = (refl, refl)
  respond-Quiet hash parcel (some async) = elim (Bool-cases (offer async parcel).1) [
    | inl taken ↦ rw taken (refl, refl)
    | inr full ↦ rw full tt
  ]

  request-Quiet : (peer : Peer) → Quiet d (some (handle_request interval now d peer))
  unfolding handle_request
  request-Quiet peer = elim (Bool-cases (leb (d.last_request peer.ref + interval) now)) [
    | inl late ↦ rw late (refl, refl)
    | inr early ↦ rw early (refl, refl)
  ]

  dispatch-Quiet : (peer : Peer) (parcel : Parcel) → Quiet d (dispatch interval now d peer parcel)
  unfolding dispatch handle_response
  dispatch-Quiet peer parcel = elim (Bool-cases (parcel.ptype == type_ping)) [
    | inl a ↦ rw a (refl, refl)
    | inr a ↦ elim (Bool-cases (parcel.ptype == type_peer_request)) [
      | inl b ↦ rw (a, b) (request-Quiet peer)
      | inr b ↦ elim (Bool-cases (parcel.ptype == type_peer_response)) [
        | inl c ↦ rw (a, b, c) (respond-Quiet peer.hash parcel (lookup peer.hash d.listeners))
        | inr c ↦ rw (a, b, c) (refl, refl)
      ]
    ]
  ]

  other-Quiet :
      (peer : Option Peer) (parcel : Parcel) → Quiet d (handle_other interval now d peer parcel)
  unfolding handle_other
  other-Quiet none parcel = (refl, refl)
  other-Quiet (some peer) parcel = dispatch-Quiet peer parcel

  -- One step sends its parcel to the application if it is one of the application's.
  abbrev Sends : ℕ → List Parcel → List Parcel → ℕ → Parcel → Option (Data × Effect) → Type 0
  Sends capacity xs out n parcel none = Unit
  Sends capacity xs out n parcel (some (d', fx)) =
      (peer : Option Peer)
      → InOrder capacity (xs ++ messages ((now, record { peer = peer; parcel = parcel }) ∷ []))
          (link d' out (n + dropped_by fx))

  module _ (capacity : ℕ) (xs out : List Parcel) (n : ℕ)
      (v : InOrder capacity xs (link d out n)) where
    kept-Sends :
        (parcel : Parcel) (o : Option (Data × Effect))
        → is_application_message parcel ≡ false
        → Quiet d o
        → Sends capacity xs out n parcel o
    kept-Sends parcel none app q = tt
    kept-Sends parcel (some (d', fx)) app q =
        λ peer. rw (app, append-nil xs, q.0, q.1, plus_none n) v

    forward-Sends :
        (parcel : Parcel)
        → 0 < capacity
        → is_application_message parcel ≡ true
        → Sends capacity xs out n parcel (some (forward d parcel))
    unfolding forward step
    forward-Sends parcel room app = λ peer.
        rw app
          (sends-InOrder capacity xs (link d out n) (record parcel { ptype = type_message }) room v)

    handle-Sends :
        (pp : PeerParcel)
        → 0 < capacity
        → Sends capacity xs out n pp.parcel (handle interval now d pp)
    unfolding handle
    handle-Sends pp room = elim (Bool-cases (is_application_message pp.parcel)) [
      | inl app ↦ rw app (forward-Sends pp.parcel room app)
      | inr other ↦ rw other (kept-Sends pp.parcel _ other (other-Quiet pp.peer pp.parcel))
    ]

messages-cons :
    (now : ℕ) (pp : PeerParcel) (pps : List (ℕ × PeerParcel))
    → messages ((now, pp) ∷ pps) ≡ messages ((now, pp) ∷ []) ++ messages pps
messages-cons now pp pps = elim (Bool-cases (is_application_message pp.parcel)) [
  | inl app ↦ rw app refl
  | inr other ↦ rw other refl
]

-- Where the application has received `out` and its channel, with room for one parcel at least,
-- keeps the order and the count of what was sent: after any parcels of the peers, what it has
-- received and what is queued are, in order, a subsequence of what was sent before and then the
-- application parcels that were handled, as whole messages. Each of those is received, queued,
-- or counted as dropped by the channel, which never exceeds its capacity; requests, responses
-- and pings are not sent to the application. The handled parcels are the first of those given,
-- as many as there are effects.
pub manage_data-InOrder :
    (interval capacity : ℕ) (out xs : List Parcel) (n : ℕ) (d : Data) (pps : List (ℕ × PeerParcel))
    → 0 < capacity
    → InOrder capacity xs (link d out n)
    → InOrder capacity
        (xs ++ messages (take (length (manage_data interval d pps).1) pps))
        (link (manage_data interval d pps).0 out (n + dropped (manage_data interval d pps).1))
unfolding manage_data
manage_data-InOrder interval capacity out xs n d [] room v = rw (append-nil xs, plus_none n) v
manage_data-InOrder interval capacity out xs n d ((now, pp) ∷ pps) room v =
    elim (Option-cases (handle interval now d pp)) [
      | inl e ↦ rw (e, manage_data, append-nil xs, plus_none n) v
      | inr ((d', fx), e) ↦
          let step : Sends interval now d capacity xs out n pp.parcel (some (d', fx)) =
            rw e at (handle-Sends interval now d capacity xs out n v pp room) in
          let effects = (manage_data interval d' pps).1 in
          let rest = take (length effects) pps in
          rw
            (
              e,
              manage_data,
              messages-cons now pp rest,
              ← append_assoc xs (messages ((now, pp) ∷ [])) (messages rest),
              plus_plus n (dropped_by fx) (dropped effects),
            )
            (manage_data-InOrder interval capacity out (xs ++ messages ((now, pp) ∷ []))
              (n + dropped_by fx) d' pps room (step pp.peer))
    ]
