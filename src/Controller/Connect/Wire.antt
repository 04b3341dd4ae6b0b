-- ===== src/Controller/Connect/Wire.antt =====
-- What a handshake reads as on the other side, over the messages of the protocols.
use mathlib.Core.List.{append-nil}
use factom_p2p.Prelude.{
  ℕ, ◌+◌, ◌≤◌, ◌<◌, ◌^◌, ◌≡◌, ◌≢◌, refl, Option, none, some, List, [], ◌++◌, length, take,
}
use factom_p2p.Endpoint.{Endpoint}
use factom_p2p.Handshake.{Handshake}
use factom_p2p.Parcel.{type_reject_alternative}
use factom_p2p.Protocol.Codec.{Codec}
use factom_p2p.Protocol.V9 as V9
use factom_p2p.Protocol.V9.{V9Msg, V9Result}
use factom_p2p.Protocol.V9.Handshakes.{wire_type, read-send_handshake, read-v9_send_handshake}
use factom_p2p.Protocol.V10 as V10
use factom_p2p.Protocol.V11 as V11
use factom_p2p.Protocol.V11.{
  Conn, V11Handshake, v11_signature, v11_max_parcel_size, handshake_message,
}
use factom_p2p.Protocol.V11.Framing.{frame}
use factom_p2p.Protocol.V11.Messages.{read_v11-send_handshake}
use factom_p2p.Controller.Admission.Negotiation.{ProtocolVersion, v9, v10, v11, FirstMessage}

abbrev read_ok : V9Result Handshake → Option Handshake
read_ok (V9.ok hs) = some hs
read_ok (V9.err e) = none

abbrev read_v11 : V11.Result Handshake → Option Handshake
read_v11 (V11.ok hs) = some hs
read_v11 (V11.err e) = none

-- The codecs of the two sides, how much their connections take, and the four bytes that a gob
-- stream begins with.
pub record Line : Type 0 where
  pub json : Codec (List Endpoint)
  pub proto : Codec V11Handshake
  pub room : ℕ
  pub gob_signature : List ℕ
  pub gob_signature-ne : gob_signature ≢ v11_signature

module _ (line : Line) where
  abbrev empty : Conn
  empty = record { input = []; output = []; accepts = line.room }

  -- What the other side reads when a handshake is sent with a protocol.
  unfoldable pub wire : ProtocolVersion → Handshake → FirstMessage
  wire v9 hs = record {
    signature = some line.gob_signature;
    as_v11 = none;
    as_gob = read_ok (V9.read_handshake line.json (V9.send_handshake line.json hs).1);
  }
  wire v10 hs = record {
    signature = some line.gob_signature;
    as_v11 = none;
    as_gob = read_ok (V9.read_handshake line.json (V10.send_handshake line.json hs));
  }
  wire v11 hs =
      let bytes = (V11.send_handshake line.proto hs empty).1.output in
      record {
        signature = some (take 4 bytes);
        as_v11 = read_v11 (V11.read_handshake line.proto (record empty { input = bytes })).0;
        as_gob = none;
      }

  -- The handshake fits the messages: its numbers fit their fields, and the protobuf message of it
  -- is not too long for the connection.
  pub record Fits (hs : Handshake) : Type 0 where
    pub node_id : hs.node_id < 2 ^ 32
    pub loopback : hs.loopback < 2 ^ 64
    pub version : hs.version < 2 ^ 16
    pub type : hs.type < 2 ^ 16
    pub message : List ℕ
    pub marshalled : line.proto.marshal (handshake_message hs) ≡ some message
    pub small : length message ≤ v11_max_parcel_size
    pub room : length message + 8 ≤ line.room

  abbrev pub gob_message : Handshake → FirstMessage
  gob_message hs = record { signature = some line.gob_signature; as_v11 = none; as_gob = some hs }

  pub wire-v9 :
      (hs : Handshake)
      → Fits hs
      → hs.alternatives ≡ []
      → hs.type ≢ type_reject_alternative
      → wire v9 hs ≡ gob_message (record hs { type = wire_type hs })
  unfolding wire
  wire-v9 hs f a t =
      let (msg, sent, read) = read-send_handshake line.json hs a t f.node_id f.loopback in
      rw (sent, read) refl

  pub wire-v10 :
      (hs : Handshake)
      → Fits hs
      → hs.alternatives ≡ []
      → hs.type ≢ type_reject_alternative
      → wire v10 hs ≡ gob_message hs
  unfolding wire V10.send_handshake
  wire-v10 hs f a t =
      let (msg, sent, read) = read-v9_send_handshake line.json hs a t f.node_id f.loopback in
      rw (sent, read) refl

  pub wire-v11 :
      (hs : Handshake)
      → Fits hs
      → wire v11 hs ≡ record { signature = some v11_signature; as_v11 = some hs; as_gob = none }
  unfolding wire
  wire-v11 hs f =
      let (sent, read) =
        read_v11-send_handshake line.proto hs f.message [] empty
          (record empty { input = v11_signature ++ frame f.message }) f.type f.version f.marshalled
          f.small f.room (rw (append-nil (frame f.message)) refl) in
      rw sent (rw read refl)
