-- ===== src/Controller/Connect/Tests.antt =====
-- A node of version 11 dials one of version 10.
use factom_p2p.Prelude.{
  ℕ, ◌≡◌, ◌≢◌, ◌↔◌, refl, true, false, none, some, List, [], ◌∷◌, arith, lookup,
}
use factom_p2p.Net.{bytes, no_addresses, atoi}
use factom_p2p.Prelude.Int.{pos}
use factom_p2p.Endpoint.{Endpoint}
use factom_p2p.Endpoint.Parse.{HasPort}
use factom_p2p.Configuration.{Configuration, default_p2p_configuration}
use factom_p2p.Handshake.{new_handshake}
use factom_p2p.PeerStore as Store
use factom_p2p.PeerStore.{new_peer_store}
use factom_p2p.Protocol.Samples.{json, handshakes}
use factom_p2p.Protocol.V11.{handshake_message, v11_signature}
use factom_p2p.Controller.Admission.{State, allow_incoming}
use factom_p2p.Controller.Bans.{is_banned_ip, ban_end}
use factom_p2p.Controller.Admission.Negotiation.{v11}
use factom_p2p.Controller.Connect.{
  Remote, go_online, new_peer, handshake_incoming, handshake_outgoing,
}
use factom_p2p.Controller.Connect.Outcomes.{
  Ended, Admits, Concluded, handshake_incoming-Ended, handshake_incoming_iff,
  handshake_outgoing-Concluded,
}
use factom_p2p.Controller.Connect.Wire.{Line, Fits}
use factom_p2p.Controller.Connect.Meeting.{Compatible, hello, reply, incoming, nodes_meet}

abbrev gob_start : List ℕ
gob_start = 50 ∷ 255 ∷ 129 ∷ 3 ∷ []

not_v11 : gob_start ≢ v11_signature
not_v11 e = ground (arith, e)

abbrev line : Line
line = record {
  json = json;
  proto = handshakes;
  room = 100;
  gob_signature = gob_start;
  gob_signature-ne = not_v11;
}

-- Two configurations whose numbers are small.
abbrev dialler : Configuration
dialler = record default_p2p_configuration {
  protocol_version = 11;
  protocol_version_minimum = 9;
  network = 1;
  node_id = 5;
  listen_port = bytes "8108";
  peer_ip_limit_incoming = 0;
  max_incoming = 36;
}

abbrev listener : Configuration
listener = record dialler { protocol_version = 10; node_id = 6; listen_port = bytes "8110" }

abbrev empty : State
empty = record {
  conf = listener;
  peers = new_peer_store;
  bans = [];
  specials = record { special = []; special_endpoints = [] };
}

port_8108 : HasPort (bytes "8108")
unfolding atoi
port_8108 = (pos 8108, refl, refl)

port_8110 : HasPort (bytes "8110")
unfolding atoi
port_8110 = (pos 8110, refl, refl)

compatible : Compatible line dialler listener
compatible = record {
  network = refl;
  dialler_port = port_8108;
  listener_port = port_8110;
  lowest = omega arith;
  highest = omega arith;
  taken = omega arith;
  kept = omega arith;
}

abbrev from : Endpoint
from = record { ip = bytes "10.0.0.1"; port = bytes "50000" }

abbrev dialled : Endpoint
dialled = record { ip = bytes "10.0.0.2"; port = bytes "8110" }

hello-Fits : Fits line (hello line no_addresses dialler empty compatible 7 8)
unfolding new_handshake handshake_message
hello-Fits = record {
  node_id = omega arith;
  loopback = omega arith;
  version = omega arith;
  type = omega arith;
  message = 8 ∷ 1 ∷ 11 ∷ 5 ∷ 7 ∷ bytes "8108";
  marshalled = refl;
  small = omega arith;
  room = omega arith;
}

reply-Fits : Fits line (reply line no_addresses dialler empty compatible 7 8)
unfolding new_handshake handshake_message
reply-Fits = record {
  node_id = omega arith;
  loopback = omega arith;
  version = omega arith;
  type = omega arith;
  message = 8 ∷ 1 ∷ 11 ∷ 6 ∷ 8 ∷ bytes "8110";
  marshalled = refl;
  small = omega arith;
  room = omega arith;
}

allowed : allow_incoming 1000 empty from.ip ≡ none
unfolding allow_incoming is_banned_ip ban_end new_peer_store Store.total Store.count Store.count_at
    lookup
allowed = refl

-- The dialling node's side ends without an error, with the listening node under its id.
nodes_meet_example :
    ((incoming line no_addresses dialler empty compatible 7 8 1000 2000 [] from dialled 1 2).1
      ≡ none)
    × ((incoming line no_addresses dialler empty compatible 7 8 1000 2000 [] from dialled 1
          2).0.closed
        ≡ false)
    × ((incoming line no_addresses dialler empty compatible 7 8 1000 2000 [] from dialled 1
          2).0.written
        ≡ (v11, reply line no_addresses dialler empty compatible 7 8) ∷ [])
    × ((incoming line no_addresses dialler empty compatible 7 8 1000 2000 [] from dialled 1 2).2
        ≡ go_online
            (new_peer 1 5 (record from { port = bytes "8108" }) true)
            (record (hello line no_addresses dialler empty compatible 7 8) {
              type = 8;
              version = 11;
            }))
nodes_meet_example =
    (nodes_meet line no_addresses dialler empty compatible 7 8 1000 2000 [] from dialled 1 2
      hello-Fits reply-Fits allowed (λ e. ground (arith, e))).0

-- The other side's handshake, as it arrives.
abbrev remote : Remote
remote = record {
  sends = true;
  first = record {
    signature = some v11_signature;
    as_v11 = some (new_handshake dialler 7);
    as_gob = none;
  };
  ref = 1;
}

handshake_incoming-Ended_example :
    Ended no_addresses 8 remote 1000 empty [] from
      (handshake_incoming no_addresses 8 remote 1000 empty [] from)
handshake_incoming-Ended_example = handshake_incoming-Ended no_addresses 8 remote 1000 empty [] from

none_connected : Store.count empty.peers from.ip ≡ pos 0
unfolding Store.count Store.count_at Store.new_peer_store lookup
none_connected = refl

handshake_incoming_iff_example :
    ((handshake_incoming no_addresses 8 remote 1000 empty [] from).1 ≡ none)
    ↔ Admits no_addresses 8 remote 1000 empty [] from 0
handshake_incoming_iff_example =
    handshake_incoming_iff no_addresses 8 remote 1000 empty [] from 0 none_connected

handshake_outgoing-Concluded_example :
    Concluded no_addresses 8 remote 1000 listener dialled
      (handshake_outgoing no_addresses 8 remote 1000 listener dialled)
handshake_outgoing-Concluded_example =
    handshake_outgoing-Concluded no_addresses 8 remote 1000 listener dialled
