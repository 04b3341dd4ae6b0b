-- ===== src/Protocol/Gob/Tests.antt =====
-- A handshake and two messages over version 9.
use factom_p2p.Prelude.{ℕ, suc, ◌≡◌, refl, none, some, List, [], ◌∷◌, ◌++◌, length}
use factom_p2p.Net.{bytes}
use factom_p2p.Parcel.{type_message}
use factom_p2p.Protocol.V9.{ProtocolV9, V9Msg, send}
use factom_p2p.Protocol.Gob.{
  GobValue, of_v9, encode, encode_all, decode_all, adopt_encoder, dialled_stream,
}
use factom_p2p.Protocol.Gob.Sessions.{session_decodes}

abbrev v9 : ProtocolV9
v9 = record { network = 1; node_id = 5; port = bytes "8108" }

abbrev message : ℕ → V9Msg
message n = send v9 (record { ptype = type_message; address = []; payload = n ∷ [] })

abbrev messages : List GobValue
messages = of_v9 (message 2) ∷ of_v9 (message 3) ∷ []

session_decodes_example :
    (decode_all (suc (length messages)) [] (dialled_stream (message 1) 9 messages)
      ≡ some (of_v9 (message 1) ∷ messages))
    × ((m : V9Msg)
        → decode_all 2 [] (
            (encode [] (of_v9 (message 1))).1
            ++ encode_all (adopt_encoder none 9 []) (of_v9 m ∷ []))
          ≡ none)
session_decodes_example = session_decodes (message 1) 9 messages (refl, (refl, tt))
