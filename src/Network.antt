-- ===== src/Network.antt =====
-- network.go, with newController and Start of controller.go: what a node is made of, and the life of
-- a network from NewNetwork to Stop. What the operating system answers is an argument: the random
-- source, the address that the dialer binds to, the peer file and the clock. SetSpecial, Ban and
-- Disconnect start the controller's functions of those names as goroutines; the gauges are left out.
pub mod Creation
pub mod Life
mod Tests
use factom_p2p.Prelude.{
  ℕ, suc, ◌≡◌, refl, Bool, true, false, not, Option, none, some, List, [], ◌∷◌, length, ◌==◌,
  if◌then◌else◌,
}
use factom_p2p.Net.{GoString, IpParser, is_empty}
use factom_p2p.NetworkId.{Sha256, string_to_uint32}
use factom_p2p.Configuration.{Configuration, ConfigError, check, sanitize}
use factom_p2p.Endpoint.{Endpoint}
use factom_p2p.Parcel.{Parcel}
use factom_p2p.ParcelChannel.{Channel, new_channel, send, offer, receive}
use factom_p2p.PeerStore.{Peer, PeerStore, new_peer_store, get, slice}
use factom_p2p.Dialer.{Dialer, new_dialer}
use factom_p2p.Seed.{Seed, new_seed}
use factom_p2p.Controller.Bans.{Bans, ban, disconnect}
use factom_p2p.Controller.Bans.Cache.{PeerCache, load_peer_cache, bootstrap}
use factom_p2p.Controller.Special.{Specials, set_special}
use factom_p2p.Controller.Round.{Rounds}
use factom_p2p.Prelude.Int.{ℤ}

-- The controller without its channels, which its loops hold.
pub record Controller : Type 0 where
  pub dialer : Dialer
  pub last_persist : ℕ
  pub specials : Specials
  pub rounds : Rounds
  pub seed : Seed
  pub peers : PeerStore
  pub bans : Bans
  pub bootstrap : List Endpoint

-- What a start depends on: whether crypto/rand gives a seed and net.ResolveTCPAddr an address to
-- bind to, rng.Uint64, the peer file's value if it is readable, and the time.
pub record Startup : Type 0 where
  pub source : Bool
  pub bound : Bool
  pub random : ℕ
  pub file : Option PeerCache
  pub now : ℕ

-- A network; `starts` counts the calls of controller.Start(), each of which starts the loops.
pub record Network : Type 0 where
  pub conf : Configuration
  pub controller : Controller
  pub instance_id : ℕ
  pub to_network : Channel Parcel
  pub from_network : Channel Parcel
  pub stopped : Bool
  pub starts : ℕ

pub data NetworkError : Type 0 where
  bad_configuration : ConfigError → NetworkError
  no_source no_dialer : NetworkError

pub data Created : Type 0 where
  refused : NetworkError → Created
  created : Network → Created

module _ (net : IpParser) where
  -- The error is the dialer's.
  unfoldable pub new_controller : Startup → Configuration → Option Controller
  new_controller s conf =
      let read = if is_empty conf.peer_cache_file then none else load_peer_cache s.now s.file in
      let (bans, first) = bootstrap read in
      let c : Controller = record {
        dialer = new_dialer conf.redial_interval;
        last_persist = s.now;
        specials = set_special net conf.special (record { special = []; special_endpoints = [] });
        rounds = record { last_round = s.now; rounds = 0 };
        seed = new_seed conf.peer_reseed_interval;
        peers = new_peer_store;
        bans = bans;
        bootstrap = first;
      } in
      if s.bound then some c else none

  -- turn nodename into nodeid
  unfoldable pub set_node_id : Sha256 → Configuration → Configuration
  set_node_id sha conf =
      if conf.node_id == 0
      then record conf { node_id = string_to_uint32 sha conf.node_name }
      else conf

  -- The end of NewNetwork, from newController's result.
  unfoldable pub assemble : Startup → Configuration → Option Controller → Created
  assemble s conf none = refused no_dialer
  assemble s conf (some c) = created (record {
    conf = conf;
    controller = c;
    instance_id = s.random;
    to_network = new_channel conf.channel_capacity;
    from_network = new_channel conf.channel_capacity;
    stopped = false;
    starts = 0;
  })

  abbrev pub new_checked : Sha256 → Startup → Configuration → Option ConfigError → Created
  new_checked sha s conf (some e) = refused (bad_configuration e)
  new_checked sha s conf none =
      let conf' = set_node_id sha (sanitize conf) in
      if s.source then assemble s conf' (new_controller s conf') else refused no_source

  unfoldable pub new_network : Sha256 → Startup → Configuration → Created
  unfolding set_node_id assemble new_controller
  new_network sha s conf = new_checked sha s conf (check net conf)

-- Run; false is the error that a stopped network cannot be restarted.
unfoldable pub run : Network → Network × Bool
run n = if n.stopped then (n, false) else (record n { starts = suc n.starts }, true)

-- Stop; false is the error that the network is stopped already.
unfoldable pub stop : Network → Network × Bool
stop n = if n.stopped then (n, false) else (record n { stopped = true }, true)

-- Send, with the number of parcels that the gauge of dropped ones counts.
unfoldable pub send_parcel : Network → Parcel → Network × ℕ
unfolding send
send_parcel n p =
    let (c, taken, dropped) = send n.to_network p in (record n { to_network = c }, dropped)

-- BlockingSend; `none` while it blocks.
unfoldable pub blocking_send : Network → Parcel → Option Network
unfolding offer
blocking_send n p =
    let (c, taken) = offer n.to_network p in
    if taken then some (record n { to_network = c }) else none

-- Ban, with the peers that it stops; `found` is what the store has for the hash, and the store's
-- slice is taken in the order that Go iterates in.
unfoldable pub ban_found : (List Peer → List Peer) → ℕ → Network → Option Peer → Network × List Peer
ban_found order now n none = (n, [])
ban_found order now n (some peer) =
    let c = n.controller in
    let (store, peers) = slice order c.peers in
    let (bans, stopped) = ban now n.conf.manual_ban (some peer) peers c.bans in
    (record n { controller = record c { bans = bans; peers = store } }, stopped)

unfoldable pub ban_hash : (List Peer → List Peer) → ℕ → Network → GoString → Network × List Peer
unfolding ban_found
ban_hash order now n hash = ban_found order now n (get n.controller.peers hash)

unfoldable pub disconnect_hash : Network → GoString → List Peer
disconnect_hash n hash = disconnect (get n.controller.peers hash)

unfoldable pub set_specials : IpParser → Network → GoString → Network
set_specials net n raw =
    let c = n.controller in
    record n { controller = record c { specials = set_special net raw c.specials } }
