-- ===== src/Parcel.antt =====
-- parcel.go and parcelType.go. A parcel's type is the number that goes over the wire; a nil
-- parcel is `none`.
use factom_p2p.Prelude.{
  ℕ, Bool, ◌||◌, Option, none, some, List, [], ◌∷◌, leb, ◌==◌, length, get_elem?, if◌then◌else◌,
}
use factom_p2p.Net.{GoString, bytes}

abbrev pub ParcelType : Type 0
ParcelType = ℕ

abbrev pub type_heartbeat : ParcelType
type_heartbeat = 0

abbrev pub type_ping : ParcelType
type_ping = 1

abbrev pub type_pong : ParcelType
type_pong = 2

abbrev pub type_peer_request : ParcelType
type_peer_request = 3

abbrev pub type_peer_response : ParcelType
type_peer_response = 4

abbrev pub type_alert : ParcelType
type_alert = 5

abbrev pub type_message : ParcelType
type_message = 6

abbrev pub type_message_part : ParcelType
type_message_part = 7

abbrev pub type_handshake : ParcelType
type_handshake = 8

abbrev pub type_reject_alternative : ParcelType
type_reject_alternative = 9

-- The map from types to names, at each key.
abbrev pub type_strings : List GoString
type_strings =
    bytes "Heartbeat"
    ∷ bytes "Ping"
    ∷ bytes "Pong"
    ∷ bytes "Peer-Request"
    ∷ bytes "Peer-Response"
    ∷ bytes "Alert"
    ∷ bytes "Message"
    ∷ bytes "MessagePart"
    ∷ bytes "Handshake"
    ∷ bytes "Rejection-Alternative"
    ∷ []

abbrev or_empty : Option GoString → GoString
or_empty none = []
or_empty (some s) = s

unfoldable pub type_to_string : ParcelType → GoString
type_to_string t = or_empty (get_elem? type_strings t)

pub record Parcel : Type 0 where
  pub ptype : ParcelType
  pub address : GoString
  pub payload : List ℕ

unfoldable pub is_application_message : Parcel → Bool
is_application_message p = p.ptype == type_message || p.ptype == type_message_part

unfoldable pub new_parcel : ParcelType → List ℕ → Parcel
new_parcel command payload = record { ptype = command; address = []; payload = payload }

-- The exported NewParcel
unfoldable pub new_application_parcel : GoString → List ℕ → Parcel
unfolding new_parcel
new_application_parcel target payload = record (new_parcel type_message payload) {
  address = target;
}

pub data ParcelError : Type 0 where
  nil_parcel unknown_type zero_length_payload : ParcelError

-- `none` is Go's nil error.
unfoldable pub valid : Option Parcel → Option ParcelError
valid none = some nil_parcel
valid (some p) =
    if leb (length type_strings) p.ptype
    then some unknown_type
    else if length p.payload == 0
    then some zero_length_payload
    else none
