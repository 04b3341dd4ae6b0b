-- ===== src/Controller/RunLoop/Tests.antt =====
-- Iterations a second apart, here 10, and rounds of 25.
use mathlib.Core.List.Perm
use factom_p2p.Prelude.{ℕ, ◌≡◌, refl, Bool, false, List, [], ◌∷◌, arith}
use factom_p2p.Controller.Selection.{Shuffle}
use factom_p2p.Controller.Round.{Rounds, run_cat_round, drop_peers, drop_loop}
use factom_p2p.Controller.RunLoop.{Tick, iterate, run}
use factom_p2p.Controller.RunLoop.Pace.{round_times, Steady, Kept, run-Paced}

abbrev unshuffled : Shuffle ℕ
unshuffled = record { shuffle = λ ps. ps; permutes = λ ps. Perm.refl ps }

abbrev none_special : ℕ → Bool
none_special p = false

abbrev tick : ℕ → Tick ℕ
tick now = record { now = now; peers = 1 ∷ 2 ∷ []; pinged_at = now; pinged = [] }

abbrev ticks : List (Tick ℕ)
ticks = tick 10 ∷ tick 20 ∷ tick 30 ∷ tick 40 ∷ tick 50 ∷ tick 60 ∷ []

abbrev first : Rounds
first = record { last_round = 0; rounds = 0 }

round_times_of_ticks : round_times unshuffled none_special 25 1 15 ticks first ≡ 30 ∷ 60 ∷ []
unfolding round_times iterate run_cat_round drop_peers drop_loop
round_times_of_ticks = refl

steady : Steady unshuffled none_special 25 1 15 10 0 ticks
steady = (
  omega arith,
  omega arith,
  (
    omega arith,
    omega arith,
    (
      omega arith,
      omega arith,
      (omega arith, omega arith, (omega arith, omega arith, (omega arith, omega arith, tt))),
    ),
  ),
)

run-Paced_example :
    Kept unshuffled none_special 25 1 15 10 first
      (round_times unshuffled none_special 25 1 15 ticks first)
      (run unshuffled none_special 25 1 15 ticks first)
run-Paced_example = run-Paced unshuffled none_special 25 1 15 10 ticks first (omega arith) steady
