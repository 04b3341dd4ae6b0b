-- ===== src/Controller/Admission/Tests.antt =====
-- An empty controller of the default configuration, and the handshake that it would send itself.
use factom_p2p.Prelude.{◌≡◌, ◌↔◌, refl, none, some, [], ◌∷◌, str_eq}
use factom_p2p.Net.{no_addresses, atoi}
use factom_p2p.PeerStore.{new_peer_store}
use factom_p2p.Configuration.{default_p2p_configuration}
use factom_p2p.Handshake.{Handshake, new_handshake, valid, all_valid}
use factom_p2p.Protocol.V11.{v11_signature}
use factom_p2p.Controller.Admission.{State}
use factom_p2p.Controller.Admission.Negotiation.{
  FirstMessage, Agreed, v10, v11, detected, detect_protocol, detect_gob, fall_back,
  detect_protocol-Agreed,
}

abbrev empty : State
empty = record {
  conf = default_p2p_configuration;
  peers = new_peer_store;
  bans = [];
  specials = record { special = []; special_endpoints = [] };
}

-- A node of version 10 answers, over gob.
abbrev from_v10 : FirstMessage
from_v10 = record {
  signature = some (1 ∷ 2 ∷ 3 ∷ 4 ∷ []);
  as_v11 = none;
  as_gob = some (new_handshake (record default_p2p_configuration { protocol_version = 10 }) 7);
}

abbrev own : Handshake
own = new_handshake (record default_p2p_configuration { protocol_version = 10 }) 7

from_v10_detected :
    detect_protocol no_addresses default_p2p_configuration from_v10 ≡ detected v10 own
unfolding detect_protocol detect_gob fall_back valid new_handshake default_p2p_configuration atoi
    str_eq all_valid
from_v10_detected = refl

detect_protocol-Agreed_example :
    ((some (1 ∷ 2 ∷ 3 ∷ 4 ∷ []) ≡ some v11_signature) ↔ (v10 ≡ v11))
    × Agreed no_addresses default_p2p_configuration from_v10 v10 own
detect_protocol-Agreed_example =
    detect_protocol-Agreed no_addresses default_p2p_configuration from_v10 v10 own from_v10_detected
