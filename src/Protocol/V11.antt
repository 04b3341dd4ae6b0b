-- ===== src/Protocol/V11.antt =====
-- protocolV11.go: messages behind their length, on a connection of bytes. The connection has the
-- bytes that are still to be read, those that were written, and how many more it takes before a
-- write fails. Protobuf's messages go through a codec.
pub mod Framing
pub mod Messages
mod Tests
use factom_p2p.Prelude.{
  ℕ, zero, suc, ◌+◌, ◌-◌, ◌*◌, ◌/◌, ◌%◌, ◌^◌, Bool, true, false, Option, none, some, List, [], ◌∷◌,
  ◌++◌, map, length, take, drop, leb, ltb, not, str_eq, if◌then◌else◌,
}
use factom_p2p.Net.{GoString}
use factom_p2p.NetworkId.{big_endian_uint32}
use factom_p2p.Endpoint.{Endpoint}
use factom_p2p.Parcel.{Parcel, new_parcel}
use factom_p2p.Handshake.{Handshake}
use factom_p2p.Protocol.Codec.{Codec}

pub record Conn : Type 0 where
  pub input : List ℕ
  pub output : List ℕ
  pub accepts : ℕ

pub data V11Error : Type 0 where
  read_failed write_failed invalid_signature too_large marshal_failed unmarshal_failed : V11Error

pub data Result {ℓ} (A : Type ℓ) : Type ℓ where
  ok : A → Result A
  err : V11Error → Result A

-- An action on the connection; what was read or written before an error stays so.
abbrev pub Action : Type 0 → Type 0
Action A = Conn → Result A × Conn

abbrev continue : {A B : Type 0} → Result A → (A → Action B) → Action B
continue (ok a) f c = f a c
continue (err e) f c = (err e, c)

infixl 5 ◌>>=◌ ◌>>◌
abbrev ◌>>=◌ : {A B : Type 0} → Action A → (A → Action B) → Action B
◌>>=◌ m f c = let (r, c') = m c in continue r f c'

abbrev ◌>>◌ : {A B : Type 0} → Action A → Action B → Action B
m >> n = m >>= λ _. n

abbrev pure : {A : Type 0} → A → Action A
pure a c = (ok a, c)

abbrev raise : {A : Type 0} → V11Error → Action A
raise e c = (err e, c)

abbrev lift_option : {A : Type 0} → V11Error → Option A → Action A
lift_option e none = raise e
lift_option e (some a) = pure a

-- 128 MiB
abbrev pub v11_max_parcel_size : ℕ
v11_max_parcel_size = 134_217_728

-- "pbuf"
abbrev pub v11_signature : List ℕ
v11_signature = 0x70 ∷ 0x62 ∷ 0x75 ∷ 0x66 ∷ []

-- io.ReadFull into `n` bytes
unfoldable pub read_check : ℕ → Action (List ℕ)
read_check n c =
    if leb n (length c.input)
    then (ok (take n c.input), record c { input = drop n c.input })
    else (err read_failed, record c { input = [] })

unfoldable pub write_check : List ℕ → Action Unit
write_check bs c =
    if leb (length bs) c.accepts
    then (ok tt, record c { output = c.output ++ bs; accepts = c.accepts - length bs })
    else (err write_failed, record c { output = c.output ++ take c.accepts bs; accepts = 0 })

-- binary.BigEndian.PutUint32
unfoldable pub put_big_endian : ℕ → List ℕ
put_big_endian v = (v / 2 ^ 24 % 256) ∷ (v / 2 ^ 16 % 256) ∷ (v / 2 ^ 8 % 256) ∷ (v % 256) ∷ []

module _ {A : Type 0} (proto : Codec A) where
  unfoldable pub read_message : Action A
  read_message = do
    buf ← read_check 4
    let size = big_endian_uint32 buf
    if ltb v11_max_parcel_size size
        then raise too_large
        else do bs ← read_check size; lift_option unmarshal_failed (proto.unmarshal bs)

  -- `uint32(len(data))` stands below the test of the length, so that nothing is cut off.
  unfoldable pub write_message : A → Action Unit
  write_message msg = do
    bs ← lift_option marshal_failed (proto.marshal msg)
    if ltb v11_max_parcel_size (length bs)
        then raise too_large
        else do write_check (put_big_endian (length bs % 2 ^ 32)); write_check bs

pub record V11Endpoint : Type 0 where
  pub host : GoString
  pub port : GoString

pub record V11Handshake : Type 0 where
  pub type : ℕ
  pub network : ℕ
  pub version : ℕ
  pub node_id : ℕ
  pub listen_port : GoString
  pub loopback : ℕ
  pub alternatives : List V11Endpoint

pub record V11Msg : Type 0 where
  pub type : ℕ
  pub payload : List ℕ

pub record V11Share : Type 0 where
  pub share : List V11Endpoint

abbrev to_v11 : Endpoint → V11Endpoint
to_v11 ep = record { host = ep.ip; port = ep.port }

abbrev of_v11 : V11Endpoint → Endpoint
of_v11 ep = record { ip = ep.host; port = ep.port }

unfoldable pub handshake_message : Handshake → V11Handshake
handshake_message hs = record {
  type = hs.type;
  network = hs.network;
  version = hs.version;
  node_id = hs.node_id;
  listen_port = hs.listen_port;
  loopback = hs.loopback;
  alternatives = map to_v11 hs.alternatives;
}

-- ParcelType and Version are cut down to 16 bits.
unfoldable pub message_handshake : V11Handshake → Handshake
message_handshake v11hs = record {
  network = v11hs.network;
  version = v11hs.version % 2 ^ 16;
  type = v11hs.type % 2 ^ 16;
  node_id = v11hs.node_id;
  listen_port = v11hs.listen_port;
  loopback = v11hs.loopback;
  alternatives = map of_v11 v11hs.alternatives;
}

unfoldable pub send_handshake : Codec V11Handshake → Handshake → Action Unit
unfolding handshake_message
send_handshake proto hs = do write_check v11_signature; write_message proto (handshake_message hs)

unfoldable pub read_handshake : Codec V11Handshake → Action Handshake
unfolding message_handshake
read_handshake proto = do
  sig ← read_check 4
  if not (str_eq sig v11_signature)
      then raise invalid_signature
      else do v11hs ← read_message proto; pure (message_handshake v11hs)

unfoldable pub send : Codec V11Msg → Parcel → Action Unit
send proto p = write_message proto (record { type = p.ptype; payload = p.payload })

unfoldable pub receive : Codec V11Msg → Action Parcel
unfolding new_parcel
receive proto = do msg ← read_message proto; pure (new_parcel (msg.type % 2 ^ 16) msg.payload)

-- The slices are never nil, and an empty one is marshalled like any other.
unfoldable pub make_peer_share : Codec V11Share → List Endpoint → Option (List ℕ)
make_peer_share proto ps = proto.marshal (record { share = map to_v11 ps })

unfoldable pub parse_peer_share : Codec V11Share → List ℕ → Option (List Endpoint)
parse_peer_share proto payload = elim (proto.unmarshal payload) [
  | none ↦ none
  | some v11share ↦ some (map of_v11 v11share.share)
]
