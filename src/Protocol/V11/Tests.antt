-- ===== src/Protocol/V11/Tests.antt =====
-- A parcel and a handshake on connections with room, with codecs that put the fields in a row.
use factom_p2p.Prelude.{ℕ, ◌≡◌, ◌+◌, ◌-◌, ◌++◌, refl, arith, List, [], ◌∷◌, length}
use factom_p2p.Net.{bytes}
use factom_p2p.Handshake.{Handshake}
use factom_p2p.Parcel.{Parcel}
use factom_p2p.Protocol.Samples.{messages}
use factom_p2p.Protocol.V11.{Conn, ok, send, receive, v11_signature}
use factom_p2p.Protocol.V11.Framing.{frame}
use factom_p2p.Protocol.V11.Messages.{receive_v11-send}

abbrev parcel : Parcel
parcel = record { ptype = 6; address = bytes "x"; payload = 1 ∷ 2 ∷ 3 ∷ [] }

abbrev message_bytes : List ℕ
message_bytes = 6 ∷ 1 ∷ 2 ∷ 3 ∷ []

abbrev fresh : Conn
fresh = record { input = []; output = []; accepts = 100 }

abbrev arrived : Conn
arrived = record { input = frame message_bytes ++ 9 ∷ []; output = []; accepts = 0 }

receive_v11-send_example :
    (send messages parcel fresh ≡ (
      ok tt,
      record fresh {
        output = [] ++ frame message_bytes;
        accepts = 100 - (length message_bytes + 4);
      },
    ))
    × (receive messages arrived
        ≡ (ok (record parcel { address = [] }), record arrived { input = 9 ∷ [] }))
receive_v11-send_example =
    receive_v11-send messages parcel message_bytes (9 ∷ []) fresh arrived (omega arith) refl
      (omega arith) (omega arith) refl

abbrev greeting : Handshake
greeting = record {
  network = 1;
  version = 11;
  type = 8;
  node_id = 2;
  listen_port = bytes "8108";
  loopback = 7;
  alternatives = [];
}

abbrev row : List ℕ
row = 8 ∷ 1 ∷ 11 ∷ 2 ∷ 7 ∷ bytes "8108"

abbrev greeted : Conn
greeted = record { input = v11_signature ++ (frame row ++ []); output = []; accepts = 0 }
