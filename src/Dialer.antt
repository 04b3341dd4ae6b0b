-- ===== src/Dialer.antt =====
-- dialer.go: the throttle on connections to one endpoint. Dialling itself is the net package's;
-- an attempt that the throttle lets through stands for the call of it, whatever comes of it.
pub mod Throttle
mod Tests
use factom_p2p.Prelude.{
  ℕ, ◌+◌, Bool, true, false, Option, none, some, List, [], ◌∷◌, GoMap, lookup, insert, leb, ltb,
  if◌then◌else◌,
}
use factom_p2p.Endpoint.{Endpoint, endpoint_eq}

pub record Dialer : Type 0 where
  pub interval : ℕ
  pub attempts : GoMap Endpoint ℕ

unfoldable pub new_dialer : ℕ → Dialer
new_dialer interval = record { interval = interval; attempts = [] }

-- `!ok || time.Since(a) >= d.interval`
abbrev pub is_over : ℕ → ℕ → Option ℕ → Bool
is_over interval now none = true
is_over interval now (some a) = leb (a + interval) now

unfoldable pub can_dial : ℕ → Dialer → Endpoint → Bool
can_dial now d ep = is_over d.interval now (lookup ep d.attempts)

-- `ok && time.Since(t) < d.interval`
abbrev pub too_soon : ℕ → ℕ → Option ℕ → Bool
too_soon interval now none = false
too_soon interval now (some t) = ltb now (t + interval)

-- Whether the connection is attempted: the error is "dialing too soon" where it is not.
unfoldable pub dial : ℕ → Dialer → Endpoint → Dialer × Bool
dial now d ep =
    if too_soon d.interval now (lookup ep d.attempts)
    then (d, false)
    else (record d { attempts = insert ep now d.attempts }, true)

-- Calls of Dial, each at its time: the attempts that were made.
unfoldable pub dial_all : Dialer → List (ℕ × Endpoint) → List (ℕ × Endpoint)
dial_all d [] = []
dial_all d ((now, ep) ∷ calls) =
    let (d', made) = dial now d ep in
    let rest = dial_all d' calls in if made then (now, ep) ∷ rest else rest
