-- ===== src/Dialer/Tests.antt =====
-- Three calls for one endpoint and one for another.
use factom_p2p.Prelude.{
  ℕ, ◌≡◌, ◌+◌, ◌&&◌, refl, List, [], ◌∷◌, leb, if◌then◌else◌, lookup, insert, str_eq,
}
use factom_p2p.Net.{bytes}
use factom_p2p.Endpoint.{Endpoint, equal}
use factom_p2p.Dialer.{new_dialer, dial, can_dial, dial_all}
use factom_p2p.Dialer.Throttle.{can_dial-dial}

abbrev at_a : Endpoint
at_a = record { ip = bytes "a"; port = bytes "1" }

abbrev at_b : Endpoint
at_b = record { ip = bytes "b"; port = bytes "1" }

abbrev calls : List (ℕ × Endpoint)
calls = (5, at_a) ∷ (7, at_a) ∷ (8, at_b) ∷ (15, at_a) ∷ []

dial_all-calls : dial_all (new_dialer 10) calls ≡ (5, at_a) ∷ (8, at_b) ∷ (15, at_a) ∷ []
unfolding dial_all dial new_dialer lookup insert equal str_eq
dial_all-calls = refl

can_dial-dial_example :
    ((dial 5 (new_dialer 10) at_a).1 ≡ can_dial 5 (new_dialer 10) at_a)
    × (can_dial 7 (dial 5 (new_dialer 10) at_a).0 at_b ≡ (
        if (dial 5 (new_dialer 10) at_a).1 && equal at_a at_b
        then leb (5 + 10) 7
        else can_dial 7 (new_dialer 10) at_b))
unfolding new_dialer
can_dial-dial_example = can_dial-dial 5 (new_dialer 10) at_a 7 at_b
