-- ===== src/Node/Tests.antt =====
-- A node that bans the IP of one of its peers.
use factom_p2p.Prelude.{
  ◌≡◌, ◌≢◌, ap, inr, refl, true, false, none, some, List, [], ◌∷◌, str_eq, lookup, insert, arith,
}
use factom_p2p.Net.{bytes, no_addresses}
use factom_p2p.Configuration.{default_p2p_configuration, Configuration}
use factom_p2p.ParcelChannel.{new_channel}
use factom_p2p.PeerStore.{Peer, new_peer_store, get, add, put, PeerStore}
use factom_p2p.Dialer.{new_dialer}
use factom_p2p.Seed.{new_seed}
use factom_p2p.Handshake.{new_handshake}
use factom_p2p.Protocol.V11.{v11_signature}
use factom_p2p.Endpoint.{Endpoint}
use factom_p2p.Controller.Connect.{Remote, new_peer}
use factom_p2p.Node.{
  Node, Event, state_of, opens, accepts, checks, dials, takes_status, bans_peer, run,
}
use factom_p2p.Node.Only.{HasOnly}
use factom_p2p.Node.StaysOut.{banned_stays_out}

abbrev conf : Configuration
conf = record default_p2p_configuration { manual_ban = 100; node_id = 5 }

abbrev peer : Peer
peer = record {
  ref = 0;
  hash = bytes "x";
  endpoint = record { ip = bytes "10.0.0.1"; port = bytes "8108" };
  is_incoming = true;
}

abbrev store : PeerStore
store = (add new_peer_store (some peer)).0

-- Before the other node's handshake passes its check.
abbrev idle : Node
idle = record {
  network = record {
    conf = conf;
    controller = record {
      dialer = new_dialer 5;
      last_persist = 100;
      specials = record { special = []; special_endpoints = [] };
      rounds = record { last_round = 100; rounds = 0 };
      seed = new_seed 5;
      peers = store;
      bans = [];
      bootstrap = [];
    };
    instance_id = 7;
    to_network = new_channel 2;
    from_network = new_channel 2;
    stopped = false;
    starts = 1;
  };
  statuses = [];
  gone = [];
  arriving = [];
  dialling = none;
}

abbrev neighbour : Endpoint
neighbour = record { ip = bytes "10.0.0.2"; port = bytes "8108" }

abbrev node : Node
node = record idle {
  arriving = record { now = 999; state = state_of idle; share = []; from = neighbour } ∷ [];
}

neighbour-ne : neighbour.ip ≢ peer.endpoint.ip
neighbour-ne e = ground (arith, ap (str_eq neighbour.ip) e)

abbrev remote : Remote
remote = record {
  sends = true;
  first = record {
    signature = some v11_signature;
    as_v11 = some (new_handshake conf 8);
    as_gob = none;
  };
  ref = 1;
}

abbrev others : List Event
others =
    opens 1050 [] peer.endpoint
    ∷ accepts 1 remote
    ∷ accepts 0 remote
    ∷ takes_status
    ∷ checks 1060 peer.endpoint
    ∷ dials (λ ps. ps) 1061 1062 (some remote)
    ∷ takes_status
    ∷ []

stored_peer : get node.network.controller.peers (bytes "x") ≡ some peer
unfolding get add put lookup insert str_eq new_peer_store
stored_peer = refl

-- The peer that is connected when it is banned is the only one.
node-HasOnly : HasOnly peer.endpoint.ip (λ p. p ≡ peer) node
unfolding add put lookup insert str_eq new_peer_store new_peer
node-HasOnly = record {
  stored = ((λ same. refl), tt);
  online = tt;
  arriving = (inr (λ ref id port same. absurd (neighbour-ne same)), tt);
  dialling = tt;
}

banned_stays_out_example :
    HasOnly peer.endpoint.ip
      (λ p. p ≡ peer)
      (run no_addresses node (bans_peer (λ ps. ps) 1000 (bytes "x") ∷ others))
banned_stays_out_example =
    banned_stays_out no_addresses (λ ps. ps) 1000 (bytes "x") peer node (λ p. p ≡ peer) others
      stored_peer refl node-HasOnly (omega arith, (tt, (tt, (tt, (omega arith, (tt, (tt, tt)))))))
