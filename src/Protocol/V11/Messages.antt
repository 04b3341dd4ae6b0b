-- ===== src/Protocol/V11/Messages.antt =====
-- Parcels, handshakes and peer shares over version 11.
use factom_p2p.Prelude.{
  ℕ, ◌+◌, ◌-◌, ◌%◌, ◌^◌, ◌≤◌, ◌<◌, ◌≡◌, refl, ap, some, List, [], ◌∷◌, ◌++◌, map, length, arith,
  str_eq_refl,
}
use factom_p2p.Endpoint.{Endpoint}
use factom_p2p.Parcel.{Parcel, new_parcel}
use factom_p2p.Handshake.{Handshake}
use factom_p2p.Protocol.Codec.{Codec}
use factom_p2p.Protocol.V11.{
  Conn, V11Msg, V11Handshake, V11Share, ok, v11_max_parcel_size, v11_signature, handshake_message,
  message_handshake, send, receive, send_handshake, read_handshake, make_peer_share,
  parse_peer_share, to_v11, of_v11, read_check, write_check,
}
use factom_p2p.Protocol.V11.Framing.{
  frame, write_message_lem, read_message_lem, read_check-append, write_check-room,
}

-- A parcel is written as one frame, if its type fits 16 bits, its message can be marshalled to
-- at most 128 MiB, and the connection takes the bytes; and the receiver of that frame, whatever
-- follows it, gets the parcel without its address and leaves what follows.
pub receive_v11-send :
    (proto : Codec V11Msg) (p : Parcel) (bs rest : List ℕ) (c d : Conn)
    → p.ptype < 2 ^ 16
    → proto.marshal (record { type = p.ptype; payload = p.payload }) ≡ some bs
    → length bs ≤ v11_max_parcel_size
    → length bs + 4 ≤ c.accepts
    → d.input ≡ frame bs ++ rest
    → (send proto p c ≡ (
      ok tt,
      record c { output = c.output ++ frame bs; accepts = c.accepts - (length bs + 4) },
    ))
      × (receive proto d ≡ (ok (record p { address = [] }), record d { input = rest }))
unfolding send receive
receive_v11-send proto p bs rest c d t m s r i =
    let msg : V11Msg = record { type = p.ptype; payload = p.payload } in
    let same : p.ptype % 2 ^ 16 ≡ p.ptype = omega arith in
    (
      write_message_lem proto msg bs c m s r,
      rw (read_message_lem proto msg bs rest d (proto.unmarshal-marshal msg bs m) s i)
          (unfold new_parcel in rw same refl),
    )

map-of_to : (eps : List Endpoint) → map of_v11 (map to_v11 eps) ≡ eps
map-of_to [] = refl
map-of_to (ep ∷ eps) = ap (λ l. ep ∷ l) (map-of_to eps)

message_handshake-handshake_message :
    (hs : Handshake)
    → hs.type < 2 ^ 16
    → hs.version < 2 ^ 16
    → message_handshake (handshake_message hs) ≡ hs
unfolding message_handshake handshake_message
message_handshake-handshake_message hs t v = ground (arith, map-of_to hs.alternatives)

-- A handshake is written as the signature and one frame, under the conditions of a parcel, its
-- version fitting 16 bits too; and the receiver gets it whole, alternatives and loopback value
-- included, and leaves what follows.
pub read_v11-send_handshake :
    (proto : Codec V11Handshake) (hs : Handshake) (bs rest : List ℕ) (c d : Conn)
    → hs.type < 2 ^ 16
    → hs.version < 2 ^ 16
    → proto.marshal (handshake_message hs) ≡ some bs
    → length bs ≤ v11_max_parcel_size
    → length bs + 8 ≤ c.accepts
    → d.input ≡ v11_signature ++ (frame bs ++ rest)
    → (send_handshake proto hs c ≡ (
      ok tt,
      record c {
        output = (c.output ++ v11_signature) ++ frame bs;
        accepts = c.accepts - 4 - (length bs + 4);
      },
    ))
      × (read_handshake proto d ≡ (ok hs, record d { input = rest }))
unfolding send_handshake read_handshake
read_v11-send_handshake proto hs bs rest c d t v m s r i =
    let msg = handshake_message hs in
    let c1 : Conn = record c { output = c.output ++ v11_signature; accepts = c.accepts - 4 } in
    let d1 : Conn = record d { input = frame bs ++ rest } in
    let e1 : write_check v11_signature c ≡ (ok tt, c1) =
      write_check-room v11_signature c (omega arith) in
    let e2 = write_message_lem proto msg bs c1 m s (omega arith) in
    let f1 : read_check 4 d ≡ (ok v11_signature, d1) =
      read_check-append v11_signature (frame bs ++ rest) d i in
    let f2 = read_message_lem proto msg bs rest d1 (proto.unmarshal-marshal msg bs m) s refl in
    (
      rw (e1, e2) refl,
      rw (f1, str_eq_refl v11_signature, f2, message_handshake-handshake_message hs t v) refl,
    )

-- The endpoints of a peer share come back from its payload, in order.
pub parse_v11-make_peer_share :
    (proto : Codec V11Share) (ps : List Endpoint) (payload : List ℕ)
    → make_peer_share proto ps ≡ some payload
    → parse_peer_share proto payload ≡ some ps
unfolding make_peer_share parse_peer_share
parse_v11-make_peer_share proto ps payload h =
    rw (proto.unmarshal-marshal (record { share = map to_v11 ps }) payload h, parse_peer_share)
      (ap some (map-of_to ps))
