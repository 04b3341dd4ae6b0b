-- ===== src/Controller/Replenish/Tests.antt =====
-- A full node that answers with an alternative, and one that takes the connection.
use factom_p2p.Prelude.{ℕ, ◌≡◌, ◌||◌, ◌==◌, refl, true, none, [], ◌∷◌, ltb, arith}
use factom_p2p.Net.{bytes}
use factom_p2p.Endpoint.{Endpoint}
use factom_p2p.Controller.Replenish.{View, replenish_pass, rejected, Sources, needs_seeds}
use factom_p2p.Controller.Replenish.Dials.{
  dial_in_turn, replenish_pass-dial_in_turn, needs_seeds_few,
}

abbrev full : Endpoint
full = record { ip = bytes "a"; port = bytes "1" }

abbrev alternative : Endpoint
alternative = record { ip = bytes "b"; port = bytes "1" }

abbrev views : ℕ → View
views k = record { total = 0; can_dial = λ ep. true; outcome = λ ep. rejected (alternative ∷ []) }

replenish_pass-dial_in_turn_example :
    replenish_pass views 8 (full ∷ []) ≡ dial_in_turn views 8 0 (full ∷ [])
replenish_pass-dial_in_turn_example = replenish_pass-dial_in_turn views 8 (full ∷ [])

-- The alternative is not dialled.
dial_in_turn-full : dial_in_turn views 8 0 (full ∷ []) ≡ full ∷ []
unfolding dial_in_turn
dial_in_turn-full = refl

abbrev sources : Sources
sources = record {
  specials = [];
  seeds = full ∷ [];
  total = 0;
  since_reseed = 1;
  shared = none;
  dialable = λ ep. true;
}

needs_seeds_few_example : needs_seeds 3 10 sources ≡ (1 == 0 || ltb 0 1)
needs_seeds_few_example =
    needs_seeds_few 3 10 sources (omega arith) (omega arith) (omega arith) (omega arith)
