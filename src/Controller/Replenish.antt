-- ===== src/Controller/Replenish.antt =====
-- catReplenish of controller_cat.go, with Dial of controller_connections.go: one pass of the loop
-- that brings the node up to its number of connections. Other goroutines change the peers, the
-- bans and the clock all the time, so that each iteration looks at a view of its own.
pub mod Dials
mod Tests
use factom_p2p.Prelude.{
  ℕ, zero, suc, ◌+◌, ◌-◌, ◌≤◌, ◌%◌, ◌^◌, ◌≡◌, refl, Bool, true, false, ◌&&◌, ◌||◌, not, Option,
  none, some, List, [], ◌∷◌, ◌++◌, length, select, leb, ltb, if◌then◌else◌,
}
use factom_p2p.Endpoint.{Endpoint}
use factom_p2p.PeerStore.{Peer}
use factom_p2p.Controller.Selection.{Shuffle}

-- What comes of a connection to an endpoint: the errors of the dialer and of handshakeOutgoing, and
-- the peer of a handshake that succeeds.
pub data Outcome : Type 0 where
  dial_failed loopback handshake_failed : Outcome
  rejected : List Endpoint → Outcome
  connected : Peer → Outcome

-- What Dial returns for it; Controller/Dialling.antt has Dial with the ban of the node's own endpoint.
unfoldable pub dial_result : Outcome → Option Peer × List Endpoint
dial_result dial_failed = (none, [])
dial_result loopback = (none, [])
dial_result handshake_failed = (none, [])
dial_result (rejected alternatives) = (none, alternatives)
dial_result (connected p) = (some p, [])

-- What an iteration sees: peers.Total(), canDial and the outcome of a Dial.
pub record View : Type 0 where
  pub total : ℕ
  pub can_dial : Endpoint → Bool
  pub outcome : Endpoint → Outcome

-- canDial, of peers.Connected, isBannedEndpoint and dialer.CanDial
unfoldable pub can_dial : Bool → Bool → Bool → Bool
can_dial is_connected is_banned dialable = not is_connected && not is_banned && dialable

-- The endpoints that are appended to the queue after a Dial.
unfoldable pub more_of : Option Peer × List Endpoint → List Endpoint
more_of (none, alts) = []
more_of (some p, alts) = alts

-- The loop over `connect`, with the number of attempts that the limit leaves: the endpoints that
-- it dials. `views k` is what the loop's iteration `k` sees.
unfoldable pub attempt_loop : (ℕ → View) → ℕ → ℕ → ℕ → List Endpoint → List Endpoint
attempt_loop views target k zero connect = []
attempt_loop views target k (suc left) [] = []
attempt_loop views target k (suc left) (ep ∷ connect) =
    let v = views k in
    let skipped = attempt_loop views target (suc k) (suc left) connect in
    let more =
      attempt_loop views target (suc k) left (connect ++ more_of (dial_result (v.outcome ep))) in
    if leb target v.total then [] else if v.can_dial ep then ep ∷ more else skipped

-- `if uint(c.seed.size()) < minReseed { minReseed = uint(c.seed.size()) - 1 }`
unfoldable pub reseed_limit : ℕ → ℕ → ℕ
reseed_limit seeds min_reseed =
    if ltb seeds min_reseed then (seeds + 2 ^ 64 - 1) % 2 ^ 64 else min_reseed

-- What a pass reads before it connects: the special endpoints, the seed's list, the time since the
-- last reseed, and the endpoint that a peer shared.
pub record Sources : Type 0 where
  pub specials : List Endpoint
  pub seeds : List Endpoint
  pub total : ℕ
  pub since_reseed : ℕ
  pub shared : Option Endpoint
  pub dialable : Endpoint → Bool

abbrev one_of : Option Endpoint → List Endpoint
one_of none = []
one_of (some ep) = ep ∷ []

unfoldable pub needs_seeds : ℕ → ℕ → Sources → Bool
unfolding reseed_limit
needs_seeds min_reseed reseed_interval s =
    leb s.total (reseed_limit (length s.seeds) min_reseed) || ltb reseed_interval s.since_reseed

-- `connect` as the loop starts with it.
unfoldable pub candidates : Shuffle Endpoint → ℕ → ℕ → Sources → List Endpoint
unfolding needs_seeds
candidates sh min_reseed reseed_interval s =
    let seeds = if needs_seeds min_reseed reseed_interval s then sh.shuffle s.seeds else [] in
    select s.dialable s.specials
    ++ select s.dialable seeds
    ++ select s.dialable (one_of (if ltb 0 s.total then s.shared else none))

-- One pass below the target; `attemptsLimit := len(connect) + 5`.
unfoldable pub replenish_pass : (ℕ → View) → ℕ → List Endpoint → List Endpoint
unfolding attempt_loop
replenish_pass views target connect = attempt_loop views target 0 (length connect + 5) connect

-- The endpoints of the last run, before the loop: the ones that are dialled.
unfoldable pub dial_bootstrap : (ℕ → View) → ℕ → List Endpoint → List Endpoint
dial_bootstrap views k [] = []
dial_bootstrap views k (e ∷ es) =
    let rest = dial_bootstrap views (suc k) es in if (views k).can_dial e then e ∷ rest else rest

-- An iteration of the loop, whose test of the target reads peers.Total() before the sources do;
-- a pass without an attempt sleeps for a second, as one at the target does.
unfoldable pub cat_replenish :
    Shuffle Endpoint → (ℕ → View) → ℕ → ℕ → ℕ → ℕ → Sources → List Endpoint
unfolding replenish_pass candidates
cat_replenish sh views total target min_reseed reseed_interval s =
    if leb target total
    then []
    else replenish_pass views target (candidates sh min_reseed reseed_interval s)
