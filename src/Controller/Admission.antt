-- ===== src/Controller/Admission.antt =====
-- Who is let in: allowIncoming of controller_connections.go, and the choice of a protocol from
-- the configuration and from the first message.
pub mod Negotiation
pub mod Understanding
mod Tests
use factom_p2p.Prelude.{
  ℕ, ◌≤◌, ◌<◌, ◌≡◌, ◌↔◌, ◌⊎◌, refl, Bool, true, false, ◌&&◌, not, Option, none, some, List, leb,
  ltb, ◌==◌, arith, if◌then◌else◌,
}
use factom_p2p.Prelude.Int.{ℤ, pos, negsuc}
use factom_p2p.Net.{GoString}
use factom_p2p.Configuration.{Configuration}
use factom_p2p.PeerStore as Store
use factom_p2p.PeerStore.{PeerStore}
use factom_p2p.Controller.Bans.{Bans, is_banned_ip}
use factom_p2p.Controller.Special.{Specials, is_special_ip}

-- The parts of the controller that the test reads.
pub record State : Type 0 where
  pub conf : Configuration
  pub peers : PeerStore
  pub bans : Bans
  pub specials : Specials

pub data Refusal : Type 0 where
  banned maxed_out ip_limit : Refusal

-- `uint(count) >= limit`: a negative count wraps round to a number above any limit.
abbrev pub at_least : ℤ → ℕ → Bool
at_least (pos n) limit = leb limit n
at_least (negsuc n) limit = true

-- `none` is Go's nil error.
unfoldable pub allow_incoming : ℕ → State → GoString → Option Refusal
allow_incoming now c addr =
    if is_banned_ip now c.bans addr
    then some banned
    else if leb c.conf.max_incoming (Store.total c.peers) && not (is_special_ip c.specials addr)
    then some maxed_out
    else if ltb 0 c.conf.peer_ip_limit_incoming
        && at_least (Store.count c.peers addr) c.conf.peer_ip_limit_incoming
    then some ip_limit
    else none

-- A connection is allowed exactly if its IP is not banned, there is room or the IP is special,
-- and the IP has fewer connections than its limit if there is one. So a special IP is not held
-- to the number of connections, but it is held to bans and to the limit for one IP.
pub allow_incoming_iff :
    (now : ℕ) (c : State) (addr : GoString) (n : ℕ)
    → Store.count c.peers addr ≡ pos n
    → (allow_incoming now c addr ≡ none) ↔ (
        (is_banned_ip now c.bans addr ≡ false)
        × ((Store.total c.peers < c.conf.max_incoming) ⊎ (is_special_ip c.specials addr ≡ true))
        × ((c.conf.peer_ip_limit_incoming ≡ 0) ⊎ (n < c.conf.peer_ip_limit_incoming)))
unfolding allow_incoming
allow_incoming_iff now c addr n e = (λ h. ground arith, λ h. ground arith)
