-- ===== src/Controller/Replenish/Dials.antt =====
-- Which endpoints a pass dials.
use mathlib.Core.List.{append-nil}
use factom_p2p.Prelude.{
  ℕ, zero, suc, ◌+◌, ◌≤◌, ◌<◌, ◌≡◌, refl, List, [], ◌∷◌, length, leb, arith, ltb, ◌^◌, ◌==◌, ◌||◌,
  if◌then◌else◌,
}
use factom_p2p.Endpoint.{Endpoint}
use factom_p2p.Controller.Replenish.{
  View, Outcome, attempt_loop, more_of, dial_result, replenish_pass, dial_failed, loopback,
  handshake_failed, rejected, connected, Sources, needs_seeds, reseed_limit,
}

-- The specification: each candidate in its turn, if it can be dialled then, until there are
-- enough peers.
unfoldable pub dial_in_turn : (ℕ → View) → ℕ → ℕ → List Endpoint → List Endpoint
dial_in_turn views target k [] = []
dial_in_turn views target k (ep ∷ eps) =
    let v = views k in
    let rest = dial_in_turn views target (suc k) eps in
    if leb target v.total then [] else if v.can_dial ep then ep ∷ rest else rest

no_more : (o : Outcome) → more_of (dial_result o) ≡ []
unfolding more_of dial_result
no_more dial_failed = refl
no_more loopback = refl
no_more handshake_failed = refl
no_more (rejected alternatives) = refl
no_more (connected p) = refl

attempt_loop-dial_in_turn :
    (views : ℕ → View) (target k left : ℕ) (connect : List Endpoint)
    → length connect < left
    → attempt_loop views target k left connect ≡ dial_in_turn views target k connect
unfolding attempt_loop dial_in_turn
attempt_loop-dial_in_turn views target k zero connect h = ground arith
attempt_loop-dial_in_turn views target k (suc left) [] h = refl
attempt_loop-dial_in_turn views target k (suc left) (ep ∷ connect) h =
    rw
      (
        no_more ((views k).outcome ep),
        append-nil connect,
        attempt_loop-dial_in_turn views target (suc k) (suc left) connect (ground arith),
        attempt_loop-dial_in_turn views target (suc k) left connect (ground arith),
      )
      refl

-- A pass dials each candidate in its turn, once, if it can be dialled at that time, until there
-- are as many peers as the target. The limit on the attempts does not cut it short, and the
-- alternatives that a full node answers with are not dialled, however the dials come out.
pub replenish_pass-dial_in_turn :
    (views : ℕ → View) (target : ℕ) (connect : List Endpoint)
    → replenish_pass views target connect ≡ dial_in_turn views target 0 connect
unfolding replenish_pass
replenish_pass-dial_in_turn views target connect =
    attempt_loop-dial_in_turn views target 0 (length connect + 5) connect (omega arith)

-- Where the seed has fewer endpoints than MinReseed and was asked within the interval, it is used
-- while fewer peers than it has endpoints are connected, and always where it has none.
pub needs_seeds_few :
    (min_reseed reseed_interval : ℕ) (s : Sources)
    → length s.seeds < min_reseed
    → min_reseed < 2 ^ 64
    → s.total < 2 ^ 64
    → s.since_reseed ≤ reseed_interval
    → needs_seeds min_reseed reseed_interval s
      ≡ (length s.seeds == 0 || ltb s.total (length s.seeds))
unfolding needs_seeds reseed_limit
needs_seeds_few min_reseed reseed_interval s h m t c = ground arith
