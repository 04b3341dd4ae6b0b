-- ===== src/Controller/Listening.antt =====
-- listen of controller_connections.go: the loop that accepts connections and starts a handshake for
-- each, over what the wrapped listener gives, with the limiter of limiter.go between them.
pub mod Starts
mod Tests
use factom_p2p.Prelude.{ℕ, Bool, true, false, Option, none, some, List, [], ◌∷◌, if◌then◌else◌}
use factom_p2p.Net.{GoString, IpParser, split_host_port}
use factom_p2p.Endpoint.{Endpoint, new_endpoint}
use factom_p2p.Limiter.{
  Limiter, Clock, Outcome, accepted, listen_failed, bad_address, rate_exceeded, accept,
}

-- A connection from an address, or an error of the wrapped listener, which is permanent if it is a
-- net.OpError and neither a timeout nor temporary.
pub data Arrival : Type 0 where
  connects : GoString → Arrival
  fails : Bool → Arrival

unfoldable pub remote_address : Arrival → Option GoString
remote_address (connects address) = some address
remote_address (fails permanent) = none

-- What an iteration does: start handshakeIncoming, close the connection, go on, or end the loop.
pub data Reaction : Type 0 where
  starts : Endpoint → Reaction
  closes continues ends : Reaction

module _ (net : IpParser) where
  unfoldable pub start_at : Option Endpoint → Reaction
  start_at none = closes
  start_at (some ep) = starts ep

  -- net.SplitHostPort and NewEndpoint on the address of an accepted connection
  unfoldable pub open_at : Option (GoString × GoString) → Reaction
  unfolding start_at
  open_at none = closes
  open_at (some (host, port)) = start_at (new_endpoint net host port)

  -- The errors of the limiter itself are no net.OpError.
  unfoldable pub react : Arrival → Outcome → Reaction
  unfolding open_at
  react (connects address) (accepted host) = open_at (split_host_port address)
  react (connects address) _ = continues
  react (fails permanent) o = if permanent then ends else continues

  -- The handshakes that are started, each with the time at which its connection was let in.
  abbrev pub after_reaction : ℕ → Reaction → List (ℕ × Endpoint) → List (ℕ × Endpoint)
  after_reaction now (starts ep) rest = (now, ep) ∷ rest
  after_reaction now closes rest = rest
  after_reaction now continues rest = rest
  after_reaction now ends rest = []

  unfoldable pub listen : Limiter → List (Clock × Arrival) → List (ℕ × Endpoint)
  unfolding react remote_address
  listen ll [] = []
  listen ll ((c, a) ∷ arrivals) =
      let (ll', o) = accept c (remote_address a) ll in
      after_reaction c.added (react a o) (listen ll' arrivals)
