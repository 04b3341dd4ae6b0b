-- ===== src/Node/StaysOut.antt =====
-- Over any events of a node: no new peer of a banned IP comes online.
use factom_p2p.Prelude.{
  ℕ, ◌+◌, ◌≤◌, ◌<◌, ◌≡◌, Option, none, some, List, [], ◌∷◌, lookup, insert, lookup-insert,
  str_eq_iff, string_eq, arith, All,
}
use factom_p2p.Net.{GoString, IpParser}
use factom_p2p.PeerStore.{Peer, get}
use factom_p2p.Controller.Bans.{ban, later_end}
use factom_p2p.Network.{Network, ban_hash, ban_found, disconnect_hash, set_specials}
use factom_p2p.Node.{
  Node, Event, opens, accepts, checks, dials, takes_status, breaks, bans_peer, disconnects,
  sets_special, rounds, Order, ban_peer, step, run,
}
use factom_p2p.Node.Bans.{HoldsBan, IsColonless, insert_endpoint-HoldsBan}
use factom_p2p.Node.Only.{HasOnly, ban_peer-HasOnly}
use factom_p2p.Node.Kept.{
  Keeps, network-stop_peers, stop_peers-Keeps, take_status-Keeps, ban_peer-Keeps, round-Keeps,
}
use factom_p2p.Node.Underway.{
  open_incoming-Keeps, check_endpoint-Keeps, accept_incoming-Keeps, dial_endpoint-Keeps,
}

-- What looks at the bans or forgets those that are over does it before the time.
abbrev pub IsBefore : ℕ → Event → Type 0
IsBefore until (opens now share from) = now < until
IsBefore until (accepts k r) = Unit {0}
IsBefore until (checks checked ep) = checked < until
IsBefore until (dials order now later remote) = Unit {0}
IsBefore until takes_status = Unit {0}
IsBefore until (breaks p) = Unit {0}
IsBefore until (bans_peer order now hash) = Unit {0}
IsBefore until (disconnects hash) = Unit {0}
IsBefore until (sets_special raw) = Unit {0}
IsBefore until (rounds order sh now) = now < until

module _ (net : IpParser) (ip : GoString) (plain : IsColonless ip) (until : ℕ)
    (Old : Peer → Type 0) where
  step-Keeps :
      (n : Node) (e : Event)
      → IsBefore until e
      → Keeps ip plain until Old n
      → Keeps ip plain until Old (step net n e)
  unfolding step set_specials
  step-Keeps n (opens now share from) early k =
      open_incoming-Keeps ip plain until Old net now share from n early k
  step-Keeps n (accepts at r) early k = accept_incoming-Keeps ip plain until Old net at r n k
  step-Keeps n (checks checked ep) early k =
      check_endpoint-Keeps ip plain until Old net checked ep n early k
  step-Keeps n (dials order now later remote) early k =
      dial_endpoint-Keeps ip plain until Old net order now later remote n k
  step-Keeps n takes_status early k =
      take_status-Keeps ip plain until Old n.statuses n k.only.online k
  step-Keeps n (breaks p) early k = stop_peers-Keeps ip plain until Old (p ∷ []) n k
  step-Keeps n (bans_peer order now hash) early k =
      ban_peer-Keeps ip plain until Old order now hash n k
  step-Keeps n (disconnects hash) early k =
      stop_peers-Keeps ip plain until Old (disconnect_hash n.network hash) n k
  step-Keeps n (sets_special raw) early k = record {
    banned = k.banned;
    only = record {
      stored = k.only.stored;
      online = k.only.online;
      arriving = k.only.arriving;
      dialling = k.only.dialling;
    };
  }
  step-Keeps n (rounds order sh now) early k = round-Keeps ip plain until Old order sh now n early k

  run-Keeps :
      (n : Node) (events : List Event)
      → All (IsBefore until) events
      → Keeps ip plain until Old n
      → Keeps ip plain until Old (run net n events)
  unfolding run
  run-Keeps n [] early k = k
  run-Keeps n (e ∷ events) (early, later) k =
      run-Keeps (step net n e) events later (step-Keeps n e early k)

-- The ban of a peer bans its IP.
later_end-end : (o : Option ℕ) (end : ℕ) → end ≤ later_end o end
unfolding later_end
later_end-end none end = omega arith
later_end-end (some x) end = ground arith

ban_found-HoldsIt :
    (order : Order) (now : ℕ) (n : Network) (p : Peer)
    → IsColonless p.endpoint.ip
    → HoldsBan p.endpoint.ip
        (now + n.conf.manual_ban)
        (ban_found order now n (some p)).0.controller.bans
unfolding ban_found ban
ban_found-HoldsIt order now n p plain =
    let bans = n.controller.bans in
    let end = later_end (lookup p.endpoint.ip bans) (now + n.conf.manual_ban) in
    insert_endpoint-HoldsBan p.endpoint.ip plain (now + n.conf.manual_ban) p.endpoint end
      (insert p.endpoint.ip end bans)
      (
        end,
        ground (
          arith,
          lookup-insert p.endpoint.ip p.endpoint.ip end bans,
          str_eq_iff p.endpoint.ip p.endpoint.ip,
        ),
        later_end-end (lookup p.endpoint.ip bans) (now + n.conf.manual_ban),
      )

ban_peer-Bans :
    (order : Order) (now : ℕ) (hash : GoString) (peer : Peer) (n : Node)
    → get n.network.controller.peers hash ≡ some peer
    → IsColonless peer.endpoint.ip
    → HoldsBan peer.endpoint.ip
        (now + n.network.conf.manual_ban)
        (ban_peer order now hash n).network.controller.bans
unfolding ban_peer ban_hash
ban_peer-Bans order now hash peer n found plain =
    let (network, stopped) = ban_hash order now n.network hash in
    rw (network-stop_peers stopped (record n { network = network }), found)
      (ban_found-HoldsIt order now n.network peer plain)

-- Once a peer whose IP has no colon is banned, the only new peers of its IP that come online until
-- the ban is over are those of handshakes that had passed their check of the bans when it was
-- banned: if all peers of the IP in the store and in the waiting reports have a property, and so
-- have those that may come of such handshakes, then all peers of the IP in the store and in the
-- reports have it after any events of which those that look at the bans, or forget old ones, do
-- so before the ban's end. Handshakes may check before or after the ban, and end at any time.
pub banned_stays_out :
    (net : IpParser) (order : Order) (now : ℕ) (hash : GoString) (peer : Peer) (n : Node)
    (Old : Peer → Type 0) (events : List Event)
    → get n.network.controller.peers hash ≡ some peer
    → IsColonless peer.endpoint.ip
    → HasOnly peer.endpoint.ip Old n
    → All (IsBefore (now + n.network.conf.manual_ban)) events
    → HasOnly peer.endpoint.ip Old (run net n (bans_peer order now hash ∷ events))
unfolding run step
banned_stays_out net order now hash peer n Old events found plain only early =
    let until = now + n.network.conf.manual_ban in
    (run-Keeps net peer.endpoint.ip plain until Old (ban_peer order now hash n) events early
      (record {
        banned = ban_peer-Bans order now hash peer n found plain;
        only = ban_peer-HasOnly peer.endpoint.ip Old order now hash n only;
      })).only
