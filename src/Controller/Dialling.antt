-- ===== src/Controller/Dialling.antt =====
-- Dial of controller_connections.go: the throttle of the dialer, the connection, and the
-- handshake, with the ban of the node's own endpoint.
pub mod SelfBan
mod Tests
use factom_p2p.Prelude.{ℕ, ◌*◌, Bool, true, false, Option, none, some, List, [], ◌∷◌, if◌then◌else◌}
use factom_p2p.Net.{IpParser}
use factom_p2p.Endpoint.{Endpoint}
use factom_p2p.Configuration.{Configuration}
use factom_p2p.Dialer as Dialer
use factom_p2p.Dialer.{Dialer}
use factom_p2p.PeerStore.{Peer}
use factom_p2p.Controller.Bans.{Bans, ban_endpoint}
use factom_p2p.Controller.Connect.{
  Remote, Action, ConnectError, loopback, Outgoing, handshake_outgoing,
}

-- time.Hour*24*365*50
abbrev pub fifty_years : ℕ
fifty_years = 3_600_000_000_000 * 24 * 365 * 50

pub record Dialling : Type 0 where
  pub dialer : Dialer
  pub bans : Bans

-- The peer and the alternatives that Dial returns, what it sends to the controller, and the peers
-- that it stops.
pub record Dialled : Type 0 where
  pub peer : Option Peer
  pub alternatives : List Endpoint
  pub actions : List Action
  pub stops : List Peer

abbrev nothing : Dialled
nothing = record { peer = none; alternatives = []; actions = []; stops = [] }

-- Where `err != nil`: a loopback is banned at the time `later`, with the peers of the slice.
unfoldable pub after_error :
    ℕ → List Peer → Endpoint → Dialling → Outgoing → ConnectError → Dialling × Dialled
after_error later slice ep s o loopback =
    let (bans, stops) = ban_endpoint later fifty_years ep slice s.bans in
    (record s { bans = bans }, record nothing { stops = stops })
after_error later slice ep s o e = (s, record nothing { alternatives = o.alternatives })

unfoldable pub after_handshake :
    ℕ → List Peer → Endpoint → Dialling → Outgoing → Option ConnectError → Dialling × Dialled
unfolding after_error
after_handshake later slice ep s o none = (s, record nothing { peer = o.peer; actions = o.actions })
after_handshake later slice ep s o (some e) = after_error later slice ep s o e

-- The dialer's connection: `none` where the net package has an error.
unfoldable pub after_connect :
    IpParser
    → ℕ
    → ℕ
    → ℕ
    → List Peer
    → Configuration
    → Endpoint
    → Dialling
    → Option Remote
    → Dialling × Dialled
unfolding after_handshake
after_connect net instance_id now later slice conf ep s none = (s, nothing)
after_connect net instance_id now later slice conf ep s (some r) =
    let o = handshake_outgoing net instance_id r now conf ep in
    after_handshake later slice ep s o o.error

unfoldable pub dial :
    IpParser
    → ℕ
    → ℕ
    → ℕ
    → List Peer
    → Configuration
    → Option Remote
    → Dialling
    → Endpoint
    → Dialling × Dialled
unfolding after_connect
dial net instance_id now later slice conf remote s ep =
    let (dialer, made) = Dialer.dial now s.dialer ep in
    let s' = record s { dialer = dialer } in
    if made then after_connect net instance_id now later slice conf ep s' remote else (s', nothing)
