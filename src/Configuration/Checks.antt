-- ===== src/Configuration/Checks.antt =====
-- What Check accepts, and what Sanitize changes.
use factom_p2p.Prelude.{min, ◌≤◌, ◌<◌, ◌≡◌, ◌≢◌, ◌↔◌, true, none, [], arith}
use factom_p2p.Prelude.Int.{pos}
use factom_p2p.Net.{IpParser, atoi}
use factom_p2p.Endpoint.Special.{parse_special}
use factom_p2p.PeerHashCache.{new_cache, add}
use factom_p2p.PeerHashCache.Buckets.{Hash}
use factom_p2p.PeerHashCache.Window.{add-no_buckets}
use factom_p2p.Configuration.{Configuration, sanitize, check}

pub record IsUsable (net : IpParser) (c : Configuration) : Type 0 where
  pub listen_port : atoi c.listen_port ≢ none
  pub listen_port_given : c.listen_port ≢ []
  pub peer_share_amount : 0 < c.peer_share_amount
  pub round_time : 0 < c.round_time
  pub target_peers : 0 < c.target_peers
  pub fanout : 0 < c.fanout
  pub handshake_timeout : 0 < c.handshake_timeout
  pub dial_timeout : 0 < c.dial_timeout
  pub read_deadline : 0 < c.read_deadline
  pub write_deadline : 0 < c.write_deadline
  pub protocol_version : (9 ≤ c.protocol_version) × (c.protocol_version ≤ 11)
  pub protocol_version_minimum : c.protocol_version_minimum ≤ 11
  pub channel_capacity : 0 < c.channel_capacity
  pub peer_share_timeout : 0 < c.peer_share_timeout
  pub special : c.special ≢ [] → parse_special net c.special ≢ none

module _ (net : IpParser) (c : Configuration) where
  check→IsUsable : check net c ≡ none → IsUsable net c
  unfolding check
  check→IsUsable h = record {
    listen_port = ground arith;
    listen_port_given = ground arith;
    peer_share_amount = ground arith;
    round_time = ground arith;
    target_peers = ground arith;
    fanout = ground arith;
    handshake_timeout = ground arith;
    dial_timeout = ground arith;
    read_deadline = ground arith;
    write_deadline = ground arith;
    protocol_version = ground arith;
    protocol_version_minimum = ground arith;
    channel_capacity = ground arith;
    peer_share_timeout = ground arith;
    special = λ given. ground arith;
  }

  IsUsable→check : IsUsable net c → check net c ≡ none
  unfolding check
  IsUsable→check u = ground (
    arith, u.listen_port, u.listen_port_given, u.peer_share_amount, u.round_time, u.target_peers,
    u.fanout, u.handshake_timeout, u.dial_timeout, u.read_deadline, u.write_deadline,
    u.protocol_version, u.protocol_version_minimum, u.channel_capacity, u.peer_share_timeout,
    u.special,
  )

  -- Check returns no error exactly for a usable configuration: the listening port reads as a
  -- number, the amounts and times that must be set are not 0, the protocol versions are in
  -- range, and the special endpoints parse if there are any.
  pub check_iff : (check net c ≡ none) ↔ IsUsable net c
  check_iff = (check→IsUsable, IsUsable→check)

  -- Sanitize keeps a configuration usable, brings the incoming limit and the drop target down to
  -- the peer limit where they are above it, and changes nothing the second time.
  pub sanitize_lem :
      check net c ≡ none
      → (check net (sanitize c) ≡ none)
        × ((sanitize c).max_incoming ≡ min c.max_incoming c.max_peers)
        × ((sanitize c).drop_to ≡ min c.drop_to c.max_peers)
        × (sanitize (sanitize c) ≡ sanitize c)
  unfolding check sanitize
  sanitize_lem h = (h, ground arith, ground arith, ground arith)

  -- A usable configuration stays so with no resend buckets; but then the cache that a peer gets
  -- panics at the first hash that is added to it.
  pub check_no_buckets :
      (hash : Hash)
      → check net c ≡ none
      → let c' = record c { peer_resend_filter = true; peer_resend_buckets = pos 0 } in
        (check net c' ≡ none) × (add (new_cache 0) hash ≡ none)
  unfolding check
  check_no_buckets hash h = (h, (add-no_buckets hash hash).0)
