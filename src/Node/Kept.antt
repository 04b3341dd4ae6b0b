-- ===== src/Node/Kept.antt =====
-- What each event of a node leaves alone while an IP is banned.
use factom_p2p.Prelude.{
  ℕ, ◌<◌, ◌≡◌, refl, false, Option, none, some, List, [], ◌∷◌, ◌++◌, ◌==◌, any_of, string_eq,
  Bool-cases, inl, inr, if◌then◌else◌,
}
use factom_p2p.Net.{GoString, is_empty}
use factom_p2p.PeerStore.{Peer, get, slice}
use factom_p2p.Controller.Bans.Cache.{create_peer_cache, drop_expired}
use factom_p2p.Controller.Special.{is_special}
use factom_p2p.Controller.Online.{Status, handle_status}
use factom_p2p.Controller.Round.{run_cat_round}
use factom_p2p.Controller.Selection.{Shuffle}
use factom_p2p.Network.{Network, ban_hash, ban_found}
use factom_p2p.Node.{Node, Order, stop_peers, set_controller, take_status, ban_peer, round}
use factom_p2p.Node.Bans.{HoldsBan, IsColonless, ban-HoldsBan, drop_expired-HoldsBan}
use factom_p2p.Node.Stored.{AllOnline}
use factom_p2p.Node.Handshakes.{Known}
use factom_p2p.Node.Only.{
  HasOnly, slice_peers, stop_peers-HasOnly, take_status-HasOnly, ban_peer-HasOnly,
}

pub network-stop_peers : (ps : List Peer) (n : Node) → (stop_peers ps n).network ≡ n.network
unfolding stop_peers
network-stop_peers [] n = refl
network-stop_peers (p ∷ ps) n = elim (Bool-cases (any_of (λ ref. ref == p.ref) n.gone)) [
  | inl old ↦ rw (old, stop_peers) (network-stop_peers ps n)
  | inr new ↦
      rw (new, stop_peers)
        (network-stop_peers ps (record n {
          statuses = n.statuses ++ record { peer = p; online = false } ∷ [];
          gone = p.ref ∷ n.gone;
        }))
]

module _ (ip : GoString) (plain : IsColonless ip) (until : ℕ) (Old : Peer → Type 0) where
  pub record Keeps (n : Node) : Type 0 where
    pub banned : HoldsBan ip until n.network.controller.bans
    pub only : HasOnly ip Old n

  pub stop_peers-Keeps : (ps : List Peer) (n : Node) → Keeps n → Keeps (stop_peers ps n)
  stop_peers-Keeps ps n k = record {
    banned = rw (network-stop_peers ps n) k.banned;
    only = stop_peers-HasOnly ip Old ps n k.only;
  }

  pub take_status-Keeps :
      (ss : List Status) (n : Node)
      → AllOnline (Known ip Old) ss
      → Keeps n
      → Keeps (take_status ss n)
  take_status-Keeps [] n a k = k
  take_status-Keeps (s ∷ ss) n a k =
      let (store, e, stopped) = handle_status n.network.controller.peers s in
      let n' = set_controller (record n.network.controller { peers = store }) n in
      record {
        banned = rw (network-stop_peers stopped (record n' { statuses = ss })) k.banned;
        only = take_status-HasOnly ip Old (s ∷ ss) n a k.only;
      }

  ban_found-HoldsBan :
      (order : Order) (now : ℕ) (n : Network) (found : Option Peer)
      → HoldsBan ip until n.controller.bans
      → HoldsBan ip until (ban_found order now n found).0.controller.bans
  unfolding ban_found
  ban_found-HoldsBan order now n none h = h
  ban_found-HoldsBan order now n (some p) h =
      ban-HoldsBan ip plain until now n.conf.manual_ban (some p) (slice order n.controller.peers).1
        n.controller.bans h

  pub ban_peer-Keeps :
      (order : Order) (now : ℕ) (hash : GoString) (n : Node)
      → Keeps n
      → Keeps (ban_peer order now hash n)
  unfolding ban_peer ban_hash
  ban_peer-Keeps order now hash n k =
      let (network, stopped) = ban_hash order now n.network hash in
      record {
        banned =
            rw (network-stop_peers stopped (record n { network = network })) (
              ban_found-HoldsBan order now n.network (get n.network.controller.peers hash)
                k.banned);
        only = ban_peer-HasOnly ip Old order now hash n k.only;
      }

  pub round-Keeps :
      (order : Order) (sh : Shuffle Peer) (now : ℕ) (n : Node)
      → now < until
      → Keeps n
      → Keeps (round order sh now n)
  unfolding round create_peer_cache
  round-Keeps order sh now n early k =
      let c = n.network.controller in
      let (store, peers) = slice order c.peers in
      let (later, stopped) =
        run_cat_round sh (λ (p : Peer). is_special c.specials p.endpoint) n.network.conf.round_time
          n.network.conf.drop_to now peers c.rounds in
      let kept = drop_expired now c.bans in
      let bans' = if is_empty n.network.conf.peer_cache_file then c.bans else kept in
      let n' = set_controller (record c { rounds = later; bans = bans'; peers = store }) n in
      elim (Bool-cases (later.rounds == c.rounds.rounds)) [
        | inl early_round ↦ rw early_round k
        | inr due ↦ rw due (
            stop_peers-Keeps stopped n' (record {
              banned = elim (Bool-cases (is_empty n.network.conf.peer_cache_file)) [
                | inl unset ↦ rw unset k.banned
                | inr set ↦ rw set (drop_expired-HoldsBan ip plain until now c.bans early k.banned)
              ];
              only = record {
                stored = rw (slice_peers order c.peers) k.only.stored;
                online = k.only.online;
                arriving = k.only.arriving;
                dialling = k.only.dialling;
              };
            }))
      ]
