-- ===== src/Node.antt =====
-- A running node: the controller of controller.go with the peerStatus channel, and what its
-- goroutines, the application and the other nodes do to it, one event after the other. A handshake
-- is two events, its check of the bans and its end, with any others in between; the reports of
-- peers wait in the channel until manageOnline takes them, in a later event; that manageOnline can
-- wait at the channel itself is in Controller/Online/Jam.antt. The network is not stopped in between.
pub mod Bans
pub mod Stored
pub mod Handshakes
pub mod Kept
pub mod Underway
pub mod Only
pub mod StaysOut
mod Tests
use factom_p2p.Prelude.{
  ℕ, zero, suc, Bool, true, false, Option, none, some, List, [], ◌∷◌, ◌++◌, ◌==◌, any_of,
  if◌then◌else◌,
}
use factom_p2p.Net.{GoString, IpParser, is_empty}
use factom_p2p.Endpoint.{Endpoint}
use factom_p2p.PeerStore as Store
use factom_p2p.PeerStore.{Peer, PeerStore}
use factom_p2p.Dialer as Dialer
use factom_p2p.Controller.Bans.{is_banned_endpoint}
use factom_p2p.Controller.Bans.Cache.{create_peer_cache}
use factom_p2p.Controller.Special.{is_special}
use factom_p2p.Controller.Admission.{State}
use factom_p2p.Controller.Connect.{Action, announces, delivers, Remote, handshake_incoming}
use factom_p2p.Controller.Dialling as Dialling
use factom_p2p.Controller.Dialling.{Dialling, Dialled}
use factom_p2p.Controller.Online.{Status, handle_status}
use factom_p2p.Controller.Replenish.{can_dial}
use factom_p2p.Controller.Round.{run_cat_round}
use factom_p2p.Controller.Selection.{Shuffle}
use factom_p2p.Network.{Network, Controller, ban_hash, disconnect_hash, set_specials}

-- An incoming handshake behind allowIncoming, which looked at the state at a time; `share` is what
-- a rejection would send.
pub record Arrival : Type 0 where
  pub now : ℕ
  pub state : State
  pub share : List Endpoint
  pub from : Endpoint

-- The arrival at a position, and the others.
unfoldable pub pick : ℕ → List Arrival → Option (Arrival × List Arrival)
pick k [] = none
pick zero (a ∷ arrivals) = some (a, arrivals)
pick (suc k) (a ∷ arrivals) = elim (pick k arrivals) [
  | none ↦ none
  | some (b, others) ↦ some (b, a ∷ others)
]

-- `statuses` is peerStatus, with the senders that wait at it, and `gone` has the pointers of the
-- peers on which Stop was called; `arriving` are the incoming handshakes that have not ended, and
-- `dialling` is the endpoint at which the replenishing loop is, behind canDial.
pub record Node : Type 0 where
  pub network : Network
  pub statuses : List Status
  pub gone : List ℕ
  pub arriving : List Arrival
  pub dialling : Option Endpoint

-- Stop on each of the peers; stopper.Do lets the first call through only.
unfoldable pub stop_peers : List Peer → Node → Node
stop_peers [] n = n
stop_peers (p ∷ ps) n =
    let n' = if any_of (λ ref. ref == p.ref) n.gone then n else record n {
      statuses = n.statuses ++ record { peer = p; online = false } ∷ [];
      gone = p.ref ∷ n.gone;
    } in
    stop_peers ps n'

-- What a handshake sends on peerStatus; the parcels for peerData are Controller/Data.antt's.
unfoldable pub announce : List Action → List Status → List Status
announce [] statuses = statuses
announce (announces p ∷ actions) statuses =
    announce actions (statuses ++ record { peer = p; online = true } ∷ [])
announce (delivers p parcel ∷ actions) statuses = announce actions statuses

abbrev pub set_controller : Controller → Node → Node
set_controller c n = record n { network = record n.network { controller = c } }

unfoldable pub state_of : Node → State
state_of n = record {
  conf = n.network.conf;
  peers = n.network.controller.peers;
  bans = n.network.controller.bans;
  specials = n.network.controller.specials;
}

-- The order in which Go ranges over the store's map.
abbrev pub Order : Type 0
Order = List Peer → List Peer

pub data Event : Type 0 where
  -- handshakeIncoming looks whether it allows the connection
  opens : ℕ → List Endpoint → Endpoint → Event
  -- the handshake at the position ends
  accepts : ℕ → Remote → Event
  -- canDial
  checks : ℕ → Endpoint → Event
  -- Dial at the first time, with a loopback banned at the second
  dials : Order → ℕ → ℕ → Option Remote → Event
  -- manageOnline takes a status
  takes_status : Event
  -- a peer stops by itself, on an error of its connection
  breaks : Peer → Event
  bans_peer : Order → ℕ → GoString → Event
  disconnects : GoString → Event
  sets_special : GoString → Event
  -- runCatRound
  rounds : Order → Shuffle Peer → ℕ → Event

abbrev pub after_dial : Dialling × Dialled → Node → Node
after_dial (d, out) n =
    let n' = set_controller (record n.network.controller { dialer = d.dialer; bans = d.bans }) n in
    stop_peers out.stops (record n' { statuses = announce out.actions n.statuses })

-- The peers that handle_status stops are those that a newer one replaces.
abbrev pub take_status : List Status → Node → Node
take_status [] n = n
take_status (s ∷ ss) n =
    let (store, e, stopped) = handle_status n.network.controller.peers s in
    let n' = set_controller (record n.network.controller { peers = store }) n in
    stop_peers stopped (record n' { statuses = ss })

unfoldable pub ban_peer : Order → ℕ → GoString → Node → Node
unfolding stop_peers
ban_peer order now hash n =
    let (network, stopped) = ban_hash order now n.network hash in
    stop_peers stopped (record n { network = network })

-- The peer file, if one is configured, is written, which forgets the bans that are over, and
-- peers are dropped.
unfoldable pub round : Order → Shuffle Peer → ℕ → Node → Node
unfolding stop_peers
round order sh now n =
    let c = n.network.controller in
    let (store, peers) = Store.slice order c.peers in
    let (later, stopped) =
      run_cat_round sh (λ (p : Peer). is_special c.specials p.endpoint) n.network.conf.round_time
        n.network.conf.drop_to now peers c.rounds in
    let (kept, cache) = create_peer_cache now c.bans peers in
    let bans' = if is_empty n.network.conf.peer_cache_file then c.bans else kept in
    let n' = set_controller (record c { rounds = later; bans = bans'; peers = store }) n in
    if later.rounds == c.rounds.rounds then n else stop_peers stopped n'

unfoldable pub open_incoming : ℕ → List Endpoint → Endpoint → Node → Node
unfolding state_of
open_incoming now share from n = record n {
  arriving = record { now = now; state = state_of n; share = share; from = from } ∷ n.arriving;
}

-- The test of the replenishing loop for an endpoint, when it is not dialling another.
unfoldable pub check_endpoint : ℕ → Endpoint → Node → Node
check_endpoint checked ep n = elim n.dialling [
  | some other ↦ n
  | none ↦
      let c = n.network.controller in
      if can_dial (Store.connected c.peers ep) (is_banned_endpoint checked c.bans ep)
        (Dialer.can_dial checked c.dialer ep)
      then record n { dialling = some ep }
      else n
]

module _ (net : IpParser) where
  unfoldable pub accept_incoming : ℕ → Remote → Node → Node
  unfolding announce
  accept_incoming k r n = elim (pick k n.arriving) [
    | none ↦ n
    | some (a, others) ↦
        let (con, e, actions) =
          handshake_incoming net n.network.instance_id r a.now a.state a.share a.from in
        record n { statuses = announce actions n.statuses; arriving = others }
  ]

  -- The replenishing loop goes on to the next endpoint when Dial has returned.
  unfoldable pub dial_endpoint : Order → ℕ → ℕ → Option Remote → Node → Node
  unfolding stop_peers announce
  dial_endpoint order now later remote n = elim n.dialling [
    | none ↦ n
    | some ep ↦
        let c = n.network.controller in
        let dialled =
          Dialling.dial net n.network.instance_id now later (Store.slice order c.peers).1
            n.network.conf remote (record { dialer = c.dialer; bans = c.bans }) ep in
        after_dial dialled (record n { dialling = none })
  ]

  unfoldable pub step : Node → Event → Node
  unfolding open_incoming accept_incoming check_endpoint dial_endpoint ban_peer round stop_peers
  step n (opens now share from) = open_incoming now share from n
  step n (accepts k r) = accept_incoming k r n
  step n (checks checked ep) = check_endpoint checked ep n
  step n (dials order now later remote) = dial_endpoint order now later remote n
  step n takes_status = take_status n.statuses n
  step n (breaks p) = stop_peers (p ∷ []) n
  step n (bans_peer order now hash) = ban_peer order now hash n
  step n (disconnects hash) = stop_peers (disconnect_hash n.network hash) n
  step n (sets_special raw) = record n { network = set_specials net n.network raw }
  step n (rounds order sh now) = round order sh now n

  unfoldable pub run : Node → List Event → Node
  run n [] = n
  run n (e ∷ events) = run (step n e) events
