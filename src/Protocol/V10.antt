-- ===== src/Protocol/V10.antt =====
-- protocolV10.go. As for version 9, the gob encoder and decoder are left out; the handshake is
-- that of version 9.
use factom_p2p.Prelude.{ℕ, ◌≡◌, refl, Option, none, some, List, [], length, ◌==◌, if◌then◌else◌}
use factom_p2p.Endpoint.{Endpoint}
use factom_p2p.Handshake.{Handshake}
use factom_p2p.Parcel.{Parcel, ParcelType, new_parcel}
use factom_p2p.Protocol.Codec.{Codec}
use factom_p2p.Protocol.V9.{V9Msg, v9_send_handshake}

pub record V10Msg : Type 0 where
  pub type : ParcelType
  pub payload : List ℕ

unfoldable pub send_handshake : Codec (List Endpoint) → Handshake → Option V9Msg
send_handshake json h = v9_send_handshake json h

unfoldable pub send : Parcel → V10Msg
send p = record { type = p.ptype; payload = p.payload }

pub data V10Error : Type 0 where
  decode_error null_payload no_handshake : V10Error

pub data V10Result {ℓ} (A : Type ℓ) : Type ℓ where
  ok : A → V10Result A
  err : V10Error → V10Result A

-- Version 10 has no handshake of its own to read.
unfoldable pub read_handshake : V10Result Handshake
read_handshake = err no_handshake

unfoldable pub receive : Option V10Msg → V10Result Parcel
receive none = err decode_error
receive (some msg) =
    if length msg.payload == 0 then err null_payload else ok (new_parcel msg.type msg.payload)

-- V10Share is Endpoint under another name.
unfoldable pub make_peer_share : Codec (List Endpoint) → List Endpoint → Option (List ℕ)
make_peer_share json share = json.marshal share

unfoldable pub parse_peer_share : Codec (List Endpoint) → List ℕ → Option (List Endpoint)
parse_peer_share json payload = json.unmarshal payload

-- A parcel with a payload arrives with its type and payload, and with no address; one without a
-- payload is refused by the receiver.
pub receive_v10-send :
    (p : Parcel)
    → receive (some (send p))
      ≡ (if length p.payload == 0 then err null_payload else ok (record p { address = [] }))
unfolding receive send new_parcel
receive_v10-send p = refl
