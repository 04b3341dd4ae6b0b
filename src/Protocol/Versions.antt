-- ===== src/Protocol/Versions.antt =====
-- What implements the interface of a protocol: protocolV9.go, protocolV10.go and protocolV11.go.
-- A version 11 connection has room for each message.
use factom_p2p.Prelude.{
  ℕ, ◌+◌, ◌^◌, ◌≤◌, ◌<◌, ◌≡◌, ◌≢◌, refl, true, false, Option, none, some, List, [], ◌∷◌, ◌++◌,
  length, ltb, arith, ◌==◌, Bool-cases, Option-cases, inl, inr,
}
use factom_p2p.Net.{GoString, IpParser}
use factom_p2p.Endpoint.{Endpoint}
use factom_p2p.Parcel.{Parcel, valid}
use factom_p2p.Protocol.Codec.{Codec}
use factom_p2p.Protocol.V9 as V9
use factom_p2p.Protocol.V9.{ProtocolV9, V9Msg, V9Share}
use factom_p2p.Protocol.V9.Parcels.{receive-send, parse-make_peer_share}
use factom_p2p.Protocol.V10 as V10
use factom_p2p.Protocol.V10.{V10Msg, receive_v10-send}
use factom_p2p.Protocol.V11 as V11
use factom_p2p.Protocol.V11.{Conn, V11Msg, V11Share, v11_max_parcel_size, too_large, marshal_failed}
use factom_p2p.Protocol.V11.Framing.{frame}
use factom_p2p.Protocol.V11.Messages.{receive_v11-send, parse_v11-make_peer_share}
use factom_p2p.Protocol.Interface.{Protocol}

valid_parcel : (p : Parcel) → valid (some p) ≡ none → (p.ptype < 2 ^ 16) × (p.payload ≢ [])
unfolding valid
valid_parcel p h = (ground (arith, h), λ e. ground (arith, h, e))

abbrev v9_parcel : V9.V9Result Parcel → List V9Msg → Option (Parcel × List V9Msg)
v9_parcel (V9.ok p) rest = some (p, rest)
v9_parcel (V9.err e) rest = none

unfoldable pub v9_read : List V9Msg → Option (Parcel × List V9Msg)
unfolding V9.receive
v9_read [] = none
v9_read (msg ∷ rest) = v9_parcel (V9.receive (some msg)) rest

pub v9_read-send :
    (v9 : ProtocolV9) (p : Parcel) (w rest : List V9Msg)
    → valid (some p) ≡ none
    → some (V9.send v9 p ∷ []) ≡ some w
    → (address : GoString) × (v9_read (w ++ rest) ≡ some (record p { address = address }, rest))
unfolding v9_read
v9_read-send v9 p w rest h s =
    let e : w ≡ V9.send v9 p ∷ [] = cc in
    (p.address, rw (e, receive-send v9 p (valid_parcel p h).1) refl)

unfoldable pub protocol_v9 : IpParser → Codec (List V9Share) → ProtocolV9 → Protocol
unfolding v9_read
protocol_v9 net json v9 = record {
  Line = V9Msg;
  version = 9;
  send = λ p. some (V9.send v9 p ∷ []);
  receive = v9_read;
  make_peer_share = V9.make_peer_share net json v9;
  parse_peer_share = V9.parse_peer_share json;
  receive_nothing = refl;
  receive_sent = v9_read-send v9;
  parse_made = parse-make_peer_share net json v9;
}

abbrev v10_parcel : V10.V10Result Parcel → List V10Msg → Option (Parcel × List V10Msg)
v10_parcel (V10.ok p) rest = some (p, rest)
v10_parcel (V10.err e) rest = none

unfoldable pub v10_read : List V10Msg → Option (Parcel × List V10Msg)
unfolding V10.receive
v10_read [] = none
v10_read (msg ∷ rest) = v10_parcel (V10.receive (some msg)) rest

pub v10_read-send :
    (p : Parcel) (w rest : List V10Msg)
    → valid (some p) ≡ none
    → some (V10.send p ∷ []) ≡ some w
    → (address : GoString) × (v10_read (w ++ rest) ≡ some (record p { address = address }, rest))
unfolding v10_read
v10_read-send p w rest h s =
    let e : w ≡ V10.send p ∷ [] = cc in
    let full : (length p.payload == 0) ≡ false = ground (arith, (valid_parcel p h).1) in
    ([], rw (e, receive_v10-send p, full) refl)

pub v10_parse-make :
    (json : Codec (List Endpoint)) (ps : List Endpoint) (payload : List ℕ)
    → V10.make_peer_share json ps ≡ some payload
    → V10.parse_peer_share json payload ≡ some ps
unfolding V10.make_peer_share V10.parse_peer_share
v10_parse-make json ps payload h = json.unmarshal-marshal ps payload h

unfoldable pub protocol_v10 : Codec (List Endpoint) → Protocol
unfolding v10_read
protocol_v10 json = record {
  Line = V10Msg;
  version = 10;
  send = λ p. some (V10.send p ∷ []);
  receive = v10_read;
  make_peer_share = V10.make_peer_share json;
  parse_peer_share = V10.parse_peer_share json;
  receive_nothing = refl;
  receive_sent = v10_read-send;
  parse_made = v10_parse-make json;
}

abbrev v11_written : V11.Result (Unit {0}) × Conn → Option (List ℕ)
v11_written (V11.ok u, c) = some c.output
v11_written (V11.err e, c) = none

abbrev v11_parcel : V11.Result Parcel × Conn → Option (Parcel × List ℕ)
v11_parcel (V11.ok p, c) = some (p, c.input)
v11_parcel (V11.err e, c) = none

module _ (proto : Codec V11Msg) where
  unfoldable pub v11_write : Parcel → Option (List ℕ)
  unfolding V11.send
  v11_write p =
      v11_written
        (V11.send proto p (record { input = []; output = []; accepts = v11_max_parcel_size + 4 }))

  unfoldable pub v11_read : List ℕ → Option (Parcel × List ℕ)
  unfolding V11.receive
  v11_read line = v11_parcel (V11.receive proto (record { input = line; output = []; accepts = 0 }))

  v11_write-unmarshalled :
      (p : Parcel)
      → proto.marshal (record { type = p.ptype; payload = p.payload }) ≡ none
      → v11_write p ≡ none
  unfolding v11_write V11.send V11.write_message
  v11_write-unmarshalled p m = rw m refl

  v11_write-large :
      (p : Parcel) (bs : List ℕ)
      → proto.marshal (record { type = p.ptype; payload = p.payload }) ≡ some bs
      → ltb v11_max_parcel_size (length bs) ≡ true
      → v11_write p ≡ none
  unfolding v11_write V11.send V11.write_message
  v11_write-large p bs m large = rw (m, large) refl

  -- What can be sent is marshalled to a message that is not too large.
  v11_write-Fits :
      (p : Parcel) (w : List ℕ)
      → v11_write p ≡ some w
      → (bs : List ℕ) × (proto.marshal (record { type = p.ptype; payload = p.payload }) ≡ some bs)
        × (length bs ≤ v11_max_parcel_size)
  v11_write-Fits p w h =
      elim (Option-cases (proto.marshal (record { type = p.ptype; payload = p.payload }))) [
        | inl m ↦ absurd (let n = v11_write-unmarshalled p m in ground (arith, h, n))
        | inr (bs, m) ↦ elim (Bool-cases (ltb v11_max_parcel_size (length bs))) [
          | inl large ↦ absurd (let n = v11_write-large p bs m large in ground (arith, h, n))
          | inr small ↦ (bs, m, ground (arith, small))
        ]
      ]

  pub v11_read-write :
      (p : Parcel) (w rest : List ℕ)
      → valid (some p) ≡ none
      → v11_write p ≡ some w
      → (address : GoString) × (v11_read (w ++ rest) ≡ some (record p { address = address }, rest))
  unfolding v11_read v11_write
  v11_read-write p w rest h s =
      let (bs, m, small) = v11_write-Fits p w s in
      let conn : Conn = record { input = []; output = []; accepts = v11_max_parcel_size + 4 } in
      let line : Conn = record { input = frame bs ++ rest; output = []; accepts = 0 } in
      let (sent, received) =
        receive_v11-send proto p bs rest conn line (valid_parcel p h).0 m small
          (omega (arith, small)) refl in
      let written : v11_written (V11.send proto p conn) ≡ some (frame bs) = rw sent refl in
      let e : w ≡ frame bs = cc (s, written) in ([], rw (e, received) refl)

  pub v11_nothing : v11_read [] ≡ none
  unfolding v11_read V11.receive V11.read_message V11.read_check
  v11_nothing = refl

unfoldable pub protocol_v11 : Codec V11Msg → Codec V11Share → Protocol
unfolding v11_read v11_write
protocol_v11 proto shares = record {
  Line = ℕ;
  version = 11;
  send = v11_write proto;
  receive = v11_read proto;
  make_peer_share = V11.make_peer_share shares;
  parse_peer_share = V11.parse_peer_share shares;
  receive_nothing = v11_nothing proto;
  receive_sent = v11_read-write proto;
  parse_made = parse_v11-make_peer_share shares;
}
