-- ===== src/PeerHash.antt =====
-- The hash of a peer, which newPeer of peer.go makes of its endpoint and of the node id of the
-- other side: "ip:port" and the id as %08x. Node ids are below 2^32.
pub mod Digits
mod Tests
use factom_p2p.Prelude.{
  ℕ, zero, suc, ◌+◌, ◌-◌, ◌*◌, ◌/◌, ◌%◌, Bool, true, false, Option, none, some, List, [], ◌∷◌, ◌++◌,
  leb, ltb, ◌&&◌, if◌then◌else◌,
}
use factom_p2p.Net.{GoString}
use factom_p2p.Endpoint.{Endpoint, to_string}

-- The digit of a number below 16.
unfoldable pub hex_digit : ℕ → ℕ
hex_digit d = if ltb d 10 then b'0' + d else b'a' + (d - 10)

-- The last `n` digits, the highest first.
unfoldable pub hex_digits : ℕ → ℕ → GoString
unfolding hex_digit
hex_digits zero v = []
hex_digits (suc n) v = hex_digits n (v / 16) ++ hex_digit (v % 16) ∷ []

-- fmt.Sprintf("%s:%s %08x", ep.IP, ep.Port, id)
unfoldable pub peer_hash : Endpoint → ℕ → GoString
unfolding hex_digits
peer_hash ep id = to_string ep ++ b' ' ∷ hex_digits 8 id

-- The value of a digit, as hex.DecodeString reads it.
unfoldable pub digit_value : ℕ → Option ℕ
digit_value c =
    if leb b'0' c && leb c b'9'
    then some (c - b'0')
    else if leb b'a' c && leb c b'f'
    then some (c - b'a' + 10)
    else if leb b'A' c && leb c b'F'
    then some (c - b'A' + 10)
    else none
