-- ===== src/PeerHash/Tests.antt =====
-- The hash of a peer, digit by digit.
use factom_p2p.Prelude.{◌≡◌, refl}
use factom_p2p.Net.{bytes}
use factom_p2p.Endpoint.{Endpoint, to_string}
use factom_p2p.PeerHash.{peer_hash, hex_digits, hex_digit}

abbrev at_a : Endpoint
at_a = record { ip = bytes "a"; port = bytes "1" }

hash_of_a : peer_hash at_a 3_735_928_559 ≡ bytes "a:1 deadbeef"
unfolding peer_hash hex_digits hex_digit to_string
hash_of_a = refl
