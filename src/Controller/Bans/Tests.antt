-- ===== src/Controller/Bans/Tests.antt =====
-- A ban of one peer, and a restart.
use factom_p2p.Prelude.{◌≡◌, true, some, [], ◌∷◌, length, count_if, All, str_eq, string_eq}
use factom_p2p.Net.{bytes}
use factom_p2p.PeerStore.{Peer}
use factom_p2p.Controller.Bans.{Bans, ban}
use factom_p2p.Controller.Bans.Effect.{ban-stops}

abbrev peer : Peer
peer = record {
  ref = 0;
  hash = bytes "x";
  endpoint = record { ip = bytes "a"; port = bytes "1" };
  is_incoming = true;
}

abbrev neighbour : Peer
neighbour = record peer { ref = 1; hash = bytes "y" }

-- "a:1" is banned until 50, its IP is not.
abbrev bans : Bans
bans = (bytes "a:1", 50) ∷ []

ban-stops_example :
    All (λ q. q ≡ peer) (ban 10 20 (some peer) (peer ∷ neighbour ∷ []) bans).1
    × (length (ban 10 20 (some peer) (peer ∷ neighbour ∷ []) bans).1
        ≡ count_if (λ (p : Peer). str_eq p.endpoint.ip (bytes "a")) (peer ∷ neighbour ∷ []))
ban-stops_example = ban-stops 10 20 peer (peer ∷ neighbour ∷ []) bans
