-- ===== src/Handshake.antt =====
-- handshake.go
pub mod Checks
mod Tests
use factom_p2p.Prelude.{
  ℕ, Bool, true, false, ◌&&◌, ◌||◌, Option, none, some, List, [], ◌∷◌, ltb, ◌==◌, not,
  if◌then◌else◌,
}
use factom_p2p.Prelude.Int.{ℤ}
use factom_p2p.Net.{GoString, IpParser, atoi}
use factom_p2p.NetworkId.{NetworkId}
use factom_p2p.Parcel.{ParcelType, type_handshake}
use factom_p2p.Endpoint.{Endpoint, out_of_range}
use factom_p2p.Endpoint as Endpoint
use factom_p2p.Configuration.{Configuration}

pub record Handshake : Type 0 where
  pub network : NetworkId
  pub version : ℕ
  pub type : ParcelType
  pub node_id : ℕ
  pub listen_port : GoString
  pub loopback : ℕ
  pub alternatives : List Endpoint

pub data HandshakeError : Type 0 where
  version_below_minimum wrong_network bad_port port_out_of_range : HandshakeError
  invalid_alternatives : HandshakeError

-- for _, ep := range h.Alternatives { if !ep.Valid() { … } }
unfoldable pub all_valid : IpParser → List Endpoint → Bool
all_valid net [] = true
all_valid net (ep ∷ eps) = if Endpoint.valid net ep then all_valid net eps else false

unfoldable pub check_tail : IpParser → Option ℤ → List Endpoint → Option HandshakeError
check_tail net none alternatives = some bad_port
check_tail net (some port) alternatives =
    if out_of_range port
    then some port_out_of_range
    else if all_valid net alternatives
    then none
    else some invalid_alternatives

-- `none` is Go's nil error.
unfoldable pub valid : IpParser → Handshake → Configuration → Option HandshakeError
unfolding check_tail
valid net h conf =
    if ltb h.version conf.protocol_version_minimum
    then some version_below_minimum
    else if not (h.network == conf.network)
    then some wrong_network
    else check_tail net (atoi h.listen_port) h.alternatives

unfoldable pub new_handshake : Configuration → ℕ → Handshake
new_handshake conf loopback = record {
  network = conf.network;
  version = conf.protocol_version;
  type = type_handshake;
  node_id = conf.node_id;
  listen_port = conf.listen_port;
  loopback = loopback;
  alternatives = [];
}
