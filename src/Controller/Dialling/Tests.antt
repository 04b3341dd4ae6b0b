-- ===== src/Controller/Dialling/Tests.antt =====
-- A node that dials its own endpoint.
use factom_p2p.Prelude.{◌≡◌, refl, true, none, some, [], str_eq, lookup}
use factom_p2p.Net.{bytes, no_addresses, atoi}
use factom_p2p.Endpoint.{Endpoint, endpoint_eq}
use factom_p2p.Configuration.{Configuration, default_p2p_configuration}
use factom_p2p.Handshake.{new_handshake, valid, all_valid}
use factom_p2p.Protocol.V11.{v11_signature}
use factom_p2p.Dialer as Dialer
use factom_p2p.Controller.Admission.Negotiation.{
  detect_protocol, detect_gob, detect_v11, select_protocol, fall_back,
}
use factom_p2p.Controller.Connect.{Remote, loopback, handshake_outgoing, conclude, start}
use factom_p2p.Controller.Dialling.{Dialling}

abbrev own : Endpoint
own = record { ip = bytes "10.0.0.1"; port = bytes "8108" }

abbrev conf : Configuration
conf = record default_p2p_configuration {
  protocol_version = 11;
  protocol_version_minimum = 9;
  network = 1;
  listen_port = bytes "8108";
}

-- The node's own reply, with its loopback value.
abbrev mirror : Remote
mirror = record {
  sends = true;
  first = record {
    signature = some v11_signature;
    as_v11 = some (new_handshake conf 7);
    as_gob = none;
  };
  ref = 1;
}

abbrev idle : Dialling
idle = record { dialer = record { interval = 5; attempts = [] }; bans = [] }

dialable : Dialer.can_dial 100 idle.dialer own ≡ true
unfolding Dialer.can_dial lookup
dialable = refl

mirrored : (handshake_outgoing no_addresses 7 mirror 100 conf own).error ≡ some loopback
unfolding handshake_outgoing conclude start detect_protocol detect_gob detect_v11 select_protocol
    new_handshake valid all_valid atoi str_eq fall_back default_p2p_configuration
mirrored = refl
