-- ===== src/Protocol/V9/Parcels.antt =====
-- Parcels and peer shares over version 9.
use factom_p2p.Prelude.{
  ℕ, ◌≡◌, ◌≢◌, ◌↔◌, refl, ap, some, List, [], ◌∷◌, map, length, ◌%◌, ◌^◌, arith,
}
use factom_p2p.Net.{IpParser}
use factom_p2p.Crc32.{checksum}
use factom_p2p.Endpoint.{Endpoint}
use factom_p2p.Parcel.{Parcel}
use factom_p2p.Protocol.Codec.{Codec}
use factom_p2p.Protocol.V9.{
  ProtocolV9, V9Msg, V9Share, ok, send, valid, receive, share_of, endpoint_of, make_peer_share,
  parse_peer_share,
}

-- What one node sends with version 9 another receives, with type, address and payload, if the
-- payload is not empty.
pub receive-send :
    (v9 : ProtocolV9) (p : Parcel) → p.payload ≢ [] → receive (some (send v9 p)) ≡ ok p
unfolding receive valid send
receive-send v9 p h = ground arith

-- The receiver accepts a message exactly if it has version 9, a payload, and the length and
-- checksum of that payload; the parcel is then the message's type, target and payload.
pub receive_iff :
    (msg : V9Msg) (p : Parcel)
    → (receive (some msg) ≡ ok p) ↔ (
        (msg.header.version ≡ 9)
        × (msg.payload ≢ [])
        × (msg.header.length_field ≡ length msg.payload % 2 ^ 32)
        × (msg.header.crc32 ≡ checksum msg.payload)
        × (p ≡ record {
          ptype = msg.header.type;
          address = msg.header.target_peer;
          payload = msg.payload;
        }))
unfolding receive valid
receive_iff msg p = (λ h. ground arith, λ h. ground arith)

map-share_of :
    (net : IpParser) (v9 : ProtocolV9) (ps : List Endpoint)
    → map endpoint_of (map (share_of net v9) ps) ≡ ps
unfolding share_of
map-share_of net v9 [] = refl
map-share_of net v9 (ep ∷ ps) = ap (λ l. ep ∷ l) (map-share_of net v9 ps)

-- The endpoints of a peer share come back from its payload, in order.
pub parse-make_peer_share :
    (net : IpParser) (json : Codec (List V9Share)) (v9 : ProtocolV9) (ps : List Endpoint)
    (payload : List ℕ)
    → make_peer_share net json v9 ps ≡ some payload
    → parse_peer_share json payload ≡ some ps
unfolding make_peer_share parse_peer_share
parse-make_peer_share net json v9 ps payload h =
    rw (json.unmarshal-marshal (map (share_of net v9) ps) payload h, parse_peer_share)
      (ap some (map-share_of net v9 ps))
