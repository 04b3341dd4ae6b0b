-- ===== src/Limiter.antt =====
-- limiter.go: the listener that refuses a host which connected a short while ago. A time is a
-- number of nanoseconds; every reading of the clock is an argument, and so is what the wrapped
-- listener's Accept returns. `t.Before(now.Add(-limit))` is written `t + limit < now`, and
-- `t.After(now.Add(-limit))` is written `now < t + limit`.
pub mod History
pub mod Rate
mod Tests
use factom_p2p.Prelude.{
  ℕ, ◌+◌, Bool, true, false, Option, none, some, List, [], ◌∷◌, ◌++◌, ltb, str_eq, if◌then◌else◌,
}
use factom_p2p.Net.{GoString, split_host_port}

pub record Attempt : Type 0 where
  pub host : GoString
  pub time : ℕ

pub record Limiter : Type 0 where
  pub limit : ℕ
  pub last_connection : ℕ
  pub history : List Attempt

-- The wrapped listener is the argument of `accept`; a negative limit is an error of the source.
unfoldable pub new_limiter : ℕ → Limiter
new_limiter limit = record { limit = limit; last_connection = 0; history = [] }

-- ll.history[i:] for the first i whose entry is inside the range, nil if there is none
unfoldable pub skip_old : ℕ → ℕ → List Attempt → List Attempt
skip_old now limit [] = []
skip_old now limit (a ∷ es) =
    let rest = skip_old now limit es in if ltb now (a.time + limit) then a ∷ es else rest

unfoldable pub clear_history : ℕ → Limiter → Limiter
clear_history now ll = record ll {
  history =
      skip_old now ll.limit (if ltb (ll.last_connection + ll.limit) now then [] else ll.history);
}

unfoldable pub has_host : GoString → List Attempt → Bool
has_host host [] = false
has_host host (h ∷ hs) = if str_eq h.host host then true else has_host host hs

unfoldable pub is_in_history : ℕ → GoString → Limiter → Limiter × Bool
is_in_history now host ll = let ll' = clear_history now ll in (ll', has_host host ll'.history)

-- The clock is read once for the entry and once for `lastConnection`.
unfoldable pub add_to_history : ℕ → ℕ → GoString → Limiter → Limiter
add_to_history added stamped host ll = record ll {
  history = ll.history ++ record { host = host; time = added } ∷ [];
  last_connection = stamped;
}

pub data Outcome : Type 0 where
  accepted : GoString → Outcome
  listen_failed : Outcome
  -- in these two the connection has been closed
  bad_address : Outcome
  rate_exceeded : GoString → Outcome

-- The readings of the clock during one call.
pub record Clock : Type 0 where
  pub checked : ℕ
  pub added : ℕ
  pub stamped : ℕ

unfoldable pub admit : Clock → GoString → Limiter → Limiter × Outcome
admit clock host ll =
    let (ll', seen) = is_in_history clock.checked host ll in
    if seen
    then (ll', rate_exceeded host)
    else (add_to_history clock.added clock.stamped host ll', accepted host)

-- `con` is the remote address of the connection that the listener returns, or its error.
unfoldable pub accept : Clock → Option GoString → Limiter → Limiter × Outcome
accept clock none ll = (ll, listen_failed)
accept clock (some address) ll = elim (split_host_port address) [
  | none ↦ (ll, bad_address)
  | some (host, port) ↦ admit clock host ll
]
