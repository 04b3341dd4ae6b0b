-- ===== src/Controller/Data.antt =====
-- manageData of controller_routing.go, with sharePeers and the listeners of asyncPeerRequest of
-- controller_cat.go: what the controller does with a parcel that a peer delivered. Times count
-- from Go's zero time, which stands for a peer that has sent no request. The goroutines that
-- answer a peer are the effects of a step.
pub mod Messages
pub mod Requests
mod Tests
use factom_p2p.Prelude.{
  ℕ, zero, suc, ◌+◌, Bool, true, false, not, ◌&&◌, ◌||◌, Option, none, some, List, [], ◌∷◌, GoMap,
  lookup, insert, length, leb, ◌==◌, string_eq, if◌then◌else◌,
}
use factom_p2p.Net.{GoString, bytes}
use factom_p2p.Endpoint.{Endpoint}
use factom_p2p.Parcel.{
  Parcel, is_application_message, new_parcel, type_ping, type_pong, type_message, type_message_part,
  type_peer_request, type_peer_response,
}
use factom_p2p.ParcelChannel.{Channel, send, offer}
use factom_p2p.PeerStore.{Peer}

pub record PeerParcel : Type 0 where
  -- nil for a peer that is no longer in the system
  pub peer : Option Peer
  pub parcel : Parcel

-- `last_request` is each peer's lastPeerRequest, by its pointer.
pub record Data : Type 0 where
  pub from_network : Channel Parcel
  pub last_request : ℕ → ℕ
  pub listeners : GoMap GoString (Channel Parcel)

pub data Effect : Type 0 where
  -- nothing is started
  no_effect : Effect
  -- go peer.Send(…)
  sends : Peer → Parcel → Effect
  -- go c.sharePeers(peer, c.makePeerShare(peer.Endpoint))
  shares : Peer → Effect
  -- the parcels that fromNetwork dropped
  forwards : ℕ → Effect

unfoldable pub assign : ℕ → ℕ → (ℕ → ℕ) → ℕ → ℕ
assign ref now times r = if r == ref then now else times r

unfoldable pub forward : Data → Parcel → Data × Effect
forward d parcel =
    let (queue, ok, dropped) = send d.from_network (record parcel { ptype = type_message }) in
    (record d { from_network = queue }, forwards dropped)

-- `time.Since(peer.lastPeerRequest) >= PeerRequestInterval`
unfoldable pub handle_request : ℕ → ℕ → Data → Peer → Data × Effect
unfolding assign
handle_request interval now d peer =
    if leb (d.last_request peer.ref + interval) now
    then (record d { last_request = assign peer.ref now d.last_request }, shares peer)
    else (d, no_effect)

-- `async <- parcel`, which is `none` where the channel is full and the loop waits.
unfoldable pub respond : Data → GoString → Parcel → Option (Channel Parcel) → Option (Data × Effect)
respond d hash parcel none = some (d, no_effect)
respond d hash parcel (some async) =
    let (async', taken) = offer async parcel in
    if taken
    then some (record d { listeners = insert hash async' d.listeners }, no_effect)
    else none

unfoldable pub handle_response : Data → Peer → Parcel → Option (Data × Effect)
unfolding respond
handle_response d peer parcel = respond d peer.hash parcel (lookup peer.hash d.listeners)

-- The cases of the parcel's type for a peer that is not nil.
unfoldable pub dispatch : ℕ → ℕ → Data → Peer → Parcel → Option (Data × Effect)
unfolding handle_request handle_response
dispatch interval now d peer parcel =
    if parcel.ptype == type_ping
    then some (d, sends peer (new_parcel type_pong (bytes "Pong")))
    else if parcel.ptype == type_peer_request
    then some (handle_request interval now d peer)
    else if parcel.ptype == type_peer_response
    then handle_response d peer parcel
    else some (d, no_effect)

-- `peer == nil && !parcel.IsApplicationMessage()` is the guard of the loop.
unfoldable pub handle_other : ℕ → ℕ → Data → Option Peer → Parcel → Option (Data × Effect)
unfolding dispatch
handle_other interval now d none parcel = some (d, no_effect)
handle_other interval now d (some peer) parcel = dispatch interval now d peer parcel

unfoldable pub handle : ℕ → ℕ → Data → PeerParcel → Option (Data × Effect)
unfolding forward handle_other
handle interval now d pp =
    if is_application_message pp.parcel
    then some (forward d pp.parcel)
    else handle_other interval now d pp.peer pp.parcel

-- The parcels that arrive at their times, until one has to wait: the state, and the effects of
-- the parcels that were handled.
unfoldable pub manage_data : ℕ → Data → List (ℕ × PeerParcel) → Data × List (ℕ × Effect)
manage_data interval d [] = (d, [])
manage_data interval d ((now, pp) ∷ pps) = elim (handle interval now d pp) [
  | none ↦ (d, [])
  | some (d', e) ↦ let (d'', effects) = manage_data interval d' pps in (d'', (now, e) ∷ effects)
]

-- The parcel that sharePeers sends for the payload that the protocol made, if it sends one.
unfoldable pub share_peers : Option (List ℕ) → Option Parcel
share_peers none = none
share_peers (some payload) =
    if length payload == 0 then none else some (new_parcel type_peer_response payload)
