-- ===== src/Debug/Tests.antt =====
-- A peer of node 2.
use factom_p2p.Prelude.{ℕ, ◌≡◌, refl, true, List, [], ◌∷◌, ◌++◌, All, arith}
use factom_p2p.Net.{bytes}
use factom_p2p.Endpoint.{Endpoint, to_string}
use factom_p2p.PeerStore.{Peer}
use factom_p2p.PeerHash.{peer_hash}
use factom_p2p.Debug.{drawn, draw}
use factom_p2p.Debug.Drawing.{IsHashed, lines, peers_of, draw-lines}

abbrev endpoint : Endpoint
endpoint = record { ip = bytes "10.0.0.1"; port = bytes "8108" }

abbrev peer : Peer
peer = record { ref = 0; hash = peer_hash endpoint 2; endpoint = endpoint; is_incoming = true }

abbrev peers : List (Peer × ℕ)
peers = (peer, 2) ∷ []

peers-IsHashed : All IsHashed peers
unfolding to_string
peers-IsHashed = ((refl, omega arith, refl), tt)

draw-lines_example :
    draw 100 (bytes "a:1") [] (peers_of peers) ≡ drawn ([] ++ lines 100 (bytes "a:1") peers)
draw-lines_example = draw-lines 100 (bytes "a:1") [] peers peers-IsHashed
