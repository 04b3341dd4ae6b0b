-- ===== src/Controller/RunLoop.antt =====
-- controller_run.go: the loop that runs once a second. Other goroutines change the peers between
-- its functions, so that each function of an iteration has a slice of its own. runMetrics is in
-- Metrics.antt.
pub mod Pace
mod Tests
use factom_p2p.Prelude.{
  ℕ, ◌+◌, Bool, List, [], ◌∷◌, map, GoMap, insert, string_eq, ltb, if◌then◌else◌,
}
use factom_p2p.Net.{GoString, bytes}
use factom_p2p.Parcel.{new_parcel, type_ping}
use factom_p2p.PeerLoops.{PeerState, send}
use factom_p2p.Controller.Selection.{Shuffle}
use factom_p2p.Controller.Round.{Rounds, run_cat_round}

-- A peer of a slice, and its lastSend.
pub record Connected : Type 0 where
  pub peer : PeerState
  pub last_send : ℕ

-- LastSendAge() > PingInterval
unfoldable pub is_quiet : ℕ → ℕ → Connected → Bool
is_quiet interval now p = ltb (p.last_send + interval) now

-- The peers after runPing.
unfoldable pub run_ping : ℕ → ℕ → List Connected → List Connected
unfolding is_quiet
run_ping interval now = map (λ p.
    if is_quiet interval now p
    then record p { peer = send p.peer (new_parcel type_ping (bytes "Ping")) }
    else p)

-- What an iteration meets: the times of runCatRound and runPing and the peers at each.
pub record Tick (A : Type 0) : Type 0 where
  pub now : ℕ
  pub peers : List A
  pub pinged_at : ℕ
  pub pinged : List Connected

module _ {A : Type 0} where
  module _ (sh : Shuffle A) (is_special : A → Bool) (round_time drop_to ping_interval : ℕ) where
    -- One iteration: whom the round stops, and the peers after the pings.
    unfoldable pub iterate : Tick A → Rounds → Rounds × List A × List Connected
    unfolding run_ping
    iterate t c =
        let (c', stopped) = run_cat_round sh is_special round_time drop_to t.now t.peers c in
        (c', stopped, run_ping ping_interval t.pinged_at t.pinged)

    -- The iterations until the stopper is closed.
    unfoldable pub run : List (Tick A) → Rounds → Rounds
    unfolding iterate
    run [] c = c
    run (t ∷ ticks) c = run ticks (iterate t c).0
