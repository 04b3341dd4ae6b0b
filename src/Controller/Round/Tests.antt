-- ===== src/Controller/Round/Tests.antt =====
-- Three peers, the first of them special, and room for one.
use mathlib.Core.List.Perm
use factom_p2p.Prelude.{ℕ, List, [], ◌∷◌, ltb}
use factom_p2p.Controller.Selection.{Shuffle}
use factom_p2p.Controller.Round.{drop_peers, Drops, drop_peers-Drops}

abbrev unshuffled : Shuffle ℕ
unshuffled = record { shuffle = λ l. l; permutes = λ l. Perm.refl l }

drop_peers-Drops_example :
    (rest : List ℕ) × Drops
      (λ n. ltb n 1)
      unshuffled
      1
      (0 ∷ 1 ∷ 2 ∷ [])
      (drop_peers unshuffled (λ n. ltb n 1) 1 (0 ∷ 1 ∷ 2 ∷ []))
      rest
drop_peers-Drops_example = drop_peers-Drops (λ n. ltb n 1) unshuffled 1 (0 ∷ 1 ∷ 2 ∷ [])
