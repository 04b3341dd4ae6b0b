-- ===== src/Controller/Selection/Tests.antt =====
-- Three peers, the first of them special.
use mathlib.Core.List.Perm
use factom_p2p.Prelude.{ℕ, ◌≡◌, true, false, not, some, [], ◌∷◌, select, any_of, if◌then◌else◌}
use factom_p2p.Net.{bytes}
use factom_p2p.Endpoint.{Endpoint, equal}
use factom_p2p.Controller.Selection.{Shuffle, process_peer_share}
use factom_p2p.Controller.Selection.Share.{process_peer_share_lem}

abbrev unshuffled : Shuffle ℕ
unshuffled = record { shuffle = λ l. l; permutes = λ l. Perm.refl l }

abbrev at_a : Endpoint
at_a = record { ip = bytes "a"; port = bytes "1" }

abbrev at_b : Endpoint
at_b = record { ip = bytes "b"; port = bytes "1" }

process_peer_share_lem_example :
    process_peer_share (λ ep. true) (equal at_b) (some (at_a ∷ at_b ∷ [])) ≡ (
      if any_of (λ ep. false) (at_a ∷ at_b ∷ [])
      then []
      else select (λ ep. not (equal at_b ep)) (at_a ∷ at_b ∷ []))
process_peer_share_lem_example = process_peer_share_lem (λ ep. true) (equal at_b) (at_a ∷ at_b ∷ [])
