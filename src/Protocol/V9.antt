-- ===== src/Protocol/V9.antt =====
-- protocolV9.go. The gob encoder and decoder are left out: sending gives the message that is
-- handed to the encoder, and receiving takes what the decoder returns, `none` for its error.
pub mod Parcels
pub mod Handshakes
mod Tests
use factom_p2p.Prelude.{
  ℕ, zero, suc, ◌+◌, ◌*◌, ◌/◌, ◌%◌, ◌^◌, ◌≡◌, Bool, true, false, Option, none, some, List, [], ◌∷◌,
  map, length, not, ltb, ◌==◌, if◌then◌else◌,
}
use factom_p2p.Net.{GoString, IpParser, bytes}
use factom_p2p.NetworkId.{NetworkId, big_endian_uint32}
use factom_p2p.Crc32.{checksum}
use factom_p2p.Endpoint.{Endpoint}
use factom_p2p.Parcel.{
  Parcel, ParcelType, type_handshake, type_peer_request, type_reject_alternative,
}
use factom_p2p.Handshake.{Handshake}
use factom_p2p.Protocol.Codec.{Codec}

-- ProtocolV9 without its encoder and decoder
pub record ProtocolV9 : Type 0 where
  pub network : NetworkId
  pub node_id : ℕ
  pub port : GoString

pub record V9Header : Type 0 where
  pub network : NetworkId
  pub version : ℕ
  pub type : ParcelType
  pub length_field : ℕ
  pub target_peer : GoString
  pub crc32 : ℕ
  pub part_no : ℕ
  pub parts_total : ℕ
  pub node_id : ℕ
  pub peer_address : GoString
  pub peer_port : GoString
  pub app_hash : GoString
  pub app_type : GoString

pub record V9Msg : Type 0 where
  pub header : V9Header
  pub payload : List ℕ

-- binary.LittleEndian.PutUint64 and Uint64
unfoldable pub put_little_endian : ℕ → ℕ → List ℕ
put_little_endian zero v = []
put_little_endian (suc n) v = (v % 256) ∷ put_little_endian n (v / 256)

unfoldable pub little_endian : List ℕ → ℕ
little_endian [] = 0
little_endian (b ∷ bs) = b + 256 * little_endian bs

pub data V9Error : Type 0 where
  decode_error invalid_version zero_length_payload length_mismatch invalid_checksum : V9Error
  json_error : V9Error

pub data V9Result {ℓ} (A : Type ℓ) : Type ℓ where
  ok : A → V9Result A
  err : V9Error → V9Result A

-- The header that every message gets, and the length and checksum of its payload.
unfoldable pub make_msg : NetworkId → ℕ → ParcelType → GoString → ℕ → GoString → List ℕ → V9Msg
make_msg network version type target node_id port payload = record {
  header = record {
    network = network;
    version = version;
    type = type;
    length_field = length payload % 2 ^ 32;
    target_peer = target;
    crc32 = checksum payload;
    part_no = 0;
    parts_total = 0;
    node_id = node_id;
    peer_address = [];
    peer_port = port;
    app_hash = bytes "NetworkMessage";
    app_type = bytes "Network";
  };
  payload = payload;
}

unfoldable pub handshake_payload : Codec (List Endpoint) → Handshake → Option (List ℕ)
unfolding put_little_endian
handshake_payload json h =
    if ltb 0 (length h.alternatives)
    then json.marshal h.alternatives
    else some (put_little_endian 8 h.loopback)

-- v9SendHandshake; `none` is the error of json.Marshal.
unfoldable pub v9_send_handshake : Codec (List Endpoint) → Handshake → Option V9Msg
unfolding handshake_payload make_msg
v9_send_handshake json h = elim (handshake_payload json h) [
  | none ↦ none
  | some payload ↦ some (make_msg h.network h.version h.type [] h.node_id h.listen_port payload)
]

-- The method SendHandshake changes the handshake that it is given.
unfoldable pub send_handshake : Codec (List Endpoint) → Handshake → Handshake × Option V9Msg
send_handshake json h =
    let h' : Handshake = record h {
      type = if h.type == type_handshake then type_peer_request else h.type;
    } in
    (h', v9_send_handshake json h')

unfoldable pub handshake_of : V9Msg → ℕ → List Endpoint → Handshake
handshake_of msg loopback alternatives = record {
  network = msg.header.network;
  version = msg.header.version;
  type = msg.header.type;
  node_id = msg.header.node_id % 2 ^ 32;
  listen_port = msg.header.peer_port;
  loopback = loopback;
  alternatives = alternatives;
}

unfoldable pub read_handshake_msg : Codec (List Endpoint) → V9Msg → V9Result Handshake
unfolding handshake_of little_endian
read_handshake_msg json msg =
    if msg.header.type == type_reject_alternative
    then (elim (json.unmarshal msg.payload) [
      | none ↦ err json_error
      | some alternatives ↦ ok (handshake_of msg 0 alternatives)
    ])
    else if length msg.payload == 8
    then ok (handshake_of msg (little_endian msg.payload) [])
    else ok (handshake_of msg 0 [])

unfoldable pub read_handshake : Codec (List Endpoint) → Option V9Msg → V9Result Handshake
read_handshake json none = err decode_error
read_handshake json (some msg) = read_handshake_msg json msg

unfoldable pub send : ProtocolV9 → Parcel → V9Msg
unfolding make_msg
send v9 p = make_msg v9.network 9 p.ptype p.address v9.node_id v9.port p.payload

-- `none` is Go's nil error.
unfoldable pub valid : V9Msg → Option V9Error
valid msg =
    if not (msg.header.version == 9)
    then some invalid_version
    else if length msg.payload == 0
    then some zero_length_payload
    else if not (msg.header.length_field == length msg.payload % 2 ^ 32)
    then some length_mismatch
    else if not (checksum msg.payload == msg.header.crc32)
    then some invalid_checksum
    else none

unfoldable pub receive : Option V9Msg → V9Result Parcel
receive none = err decode_error
receive (some msg) = elim (valid msg) [
  | some e ↦ err e
  | none ↦
      ok (record {
        ptype = msg.header.type;
        address = msg.header.target_peer;
        payload = msg.payload;
      })
]

-- V9Share without LastContact, always the zero time, and Source, always the empty map.
pub record V9Share : Type 0 where
  pub quality_score : ℕ
  pub address : GoString
  pub port : GoString
  pub node_id : ℕ
  pub hash : GoString
  pub location : ℕ
  pub network : NetworkId
  pub type : ℕ
  pub connections : ℕ

abbrev last_four : List ℕ → List ℕ
last_four (a ∷ b ∷ c ∷ d ∷ e ∷ f ∷ g ∷ h ∷ i ∷ j ∷ k ∷ l ∷ rest) = rest
last_four ip = ip

-- IP2LocationQuick of util.go
unfoldable pub ip2location_quick : IpParser → GoString → ℕ
unfolding big_endian_uint32
ip2location_quick net addr = elim (net.parse_ip addr) [
  | none ↦ 0
  | some ip ↦ big_endian_uint32 (if length ip == 16 then last_four ip else ip)
]

unfoldable pub share_of : IpParser → ProtocolV9 → Endpoint → V9Share
unfolding ip2location_quick
share_of net v9 ep = record {
  quality_score = 20;
  address = ep.ip;
  port = ep.port;
  node_id = 1;
  hash = ep.ip;
  location = ip2location_quick net ep.ip;
  network = v9.network;
  type = 0;
  connections = 1;
}

unfoldable pub make_peer_share :
    IpParser → Codec (List V9Share) → ProtocolV9 → List Endpoint → Option (List ℕ)
unfolding share_of
make_peer_share net json v9 ps = json.marshal (map (share_of net v9) ps)

abbrev endpoint_of : V9Share → Endpoint
endpoint_of s = record { ip = s.address; port = s.port }

unfoldable pub parse_peer_share : Codec (List V9Share) → List ℕ → Option (List Endpoint)
parse_peer_share json payload = elim (json.unmarshal payload) [
  | none ↦ none
  | some list ↦ some (map endpoint_of list)
]
