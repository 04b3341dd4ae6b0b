-- ===== src/Protocol/V9/Tests.antt =====
-- Messages of version 9 and 10, with a codec of one list of endpoints.
use factom_p2p.Prelude.{
  ℕ, List, none, arith, inl, ◌≡◌, ◌≢◌, ◌↔◌, ◌%◌, ◌^◌, refl, some, [], ◌∷◌, length,
}
use factom_p2p.Net.{bytes}
use factom_p2p.Handshake.{Handshake}
use factom_p2p.Parcel.{Parcel, new_application_parcel, type_peer_request, type_reject_alternative}
use factom_p2p.Crc32.{checksum}
use factom_p2p.Protocol.Samples.{json}
use factom_p2p.Protocol.V9.{ProtocolV9, send, receive, ok}
use factom_p2p.Protocol.V9.Parcels.{receive_iff}
use factom_p2p.Protocol.V9.Handshakes.{Readable, read-send_rejection_iff}

abbrev v9 : ProtocolV9
v9 = record { network = 1; node_id = 2; port = bytes "8108" }

abbrev parcel : Parcel
parcel = new_application_parcel (bytes "<BROADCAST>") (1 ∷ 2 ∷ 3 ∷ [])

receive_iff_example : (receive (some (send v9 parcel)) ≡ ok parcel) ↔ (
    ((send v9 parcel).header.version ≡ 9)
    × ((send v9 parcel).payload ≢ [])
    × ((send v9 parcel).header.length_field ≡ length (send v9 parcel).payload % 2 ^ 32)
    × ((send v9 parcel).header.crc32 ≡ checksum (send v9 parcel).payload)
    × (parcel ≡ record {
      ptype = (send v9 parcel).header.type;
      address = (send v9 parcel).header.target_peer;
      payload = (send v9 parcel).payload;
    }))
receive_iff_example = receive_iff (send v9 parcel) parcel

abbrev greeting : Handshake
greeting = record {
  network = 1;
  version = 9;
  type = type_peer_request;
  node_id = 2;
  listen_port = bytes "8108";
  loopback = 7;
  alternatives = [];
}

abbrev empty_rejection : Handshake
empty_rejection = record greeting { type = type_reject_alternative; loopback = 0 }

refused : (bs : List ℕ) → json.unmarshal (0 ∷ bs) ≡ none
refused [] = refl
refused (b ∷ bs) = refl

read-send_rejection_iff_example : Readable json empty_rejection
read-send_rejection_iff_example =
    read-send_rejection_iff json empty_rejection refl refl (omega arith) (inl refl) refused
