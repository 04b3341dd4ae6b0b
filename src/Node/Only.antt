-- ===== src/Node/Only.antt =====
-- What stops peers, takes a status or bans a peer brings no new peer of an IP.
use factom_p2p.Prelude.{
  ℕ, ◌≡◌, refl, false, Option, none, some, List, [], ◌∷◌, ◌++◌, ◌==◌, any_of, string_eq, All,
  All-append, Bool-cases, Option-cases, inl, inr,
}
use factom_p2p.Net.{GoString}
use factom_p2p.PeerStore.{Peer, PeerStore, get, slice}
use factom_p2p.Controller.Online.{Status, handle_status}
use factom_p2p.Network.{ban_hash, ban_found}
use factom_p2p.Node.{Node, Order, stop_peers, set_controller, take_status, ban_peer}
use factom_p2p.Node.Stored.{AllStored, AllOnline, handle_status-AllStored}
use factom_p2p.Node.Handshakes.{Known, MayDial, Passes}
use factom_p2p.Endpoint.{Endpoint}

abbrev pub AllDialled : (Endpoint → Type 0) → Option Endpoint → Type 0
AllDialled P none = Unit {0}
AllDialled P (some ep) = P ep

-- Of the IP, the node has no peer but known ones, in the store and in the channel, and no other will
-- come of the handshakes that are behind their checks.
pub record HasOnly (ip : GoString) (Old : Peer → Type 0) (n : Node) : Type 0 where
  pub stored : AllStored (Known ip Old) n.network.controller.peers.peers
  pub online : AllOnline (Known ip Old) n.statuses
  pub arriving : All (Passes ip Old) n.arriving
  pub dialling : AllDialled (MayDial ip Old) n.dialling

pub slice_peers : (order : Order) (ps : PeerStore) → (slice order ps).0.peers ≡ ps.peers
unfolding slice
slice_peers order ps = elim (Option-cases ps.cur_slice) [
  | inl e ↦ rw (e, slice) refl
  | inr (cached, e) ↦ rw (e, slice) refl
]

module _ (ip : GoString) (Old : Peer → Type 0) where
  pub stop_peers-HasOnly :
      (ps : List Peer) (n : Node) → HasOnly ip Old n → HasOnly ip Old (stop_peers ps n)
  unfolding stop_peers
  stop_peers-HasOnly [] n k = k
  stop_peers-HasOnly (p ∷ ps) n k = elim (Bool-cases (any_of (λ ref. ref == p.ref) n.gone)) [
    | inl old ↦ rw old (stop_peers-HasOnly ps n k)
    | inr new ↦
        let n' = record n {
          statuses = n.statuses ++ record { peer = p; online = false } ∷ [];
          gone = p.ref ∷ n.gone;
        } in
        rw new (
          stop_peers-HasOnly ps n' (record {
            stored = k.stored;
            online =
                All-append _ n.statuses (record { peer = p; online = false } ∷ []) k.online
                  ((λ on. cc), tt);
            arriving = k.arriving;
            dialling = k.dialling;
          }))
  ]

  pub take_status-HasOnly :
      (ss : List Status) (n : Node)
      → AllOnline (Known ip Old) ss
      → HasOnly ip Old n
      → HasOnly ip Old (take_status ss n)
  take_status-HasOnly [] n a k = k
  take_status-HasOnly (s ∷ ss) n a k =
      let (store, e, stopped) = handle_status n.network.controller.peers s in
      let n' = set_controller (record n.network.controller { peers = store }) n in
      stop_peers-HasOnly stopped (record n' { statuses = ss })
        (record {
          stored =
              handle_status-AllStored (Known ip Old) n.network.controller.peers s (a.0) k.stored;
          online = a.1;
          arriving = k.arriving;
          dialling = k.dialling;
        })

  ban_found-HasOnly :
      (order : Order) (now : ℕ) (n : Node) (found : Option Peer)
      → HasOnly ip Old n
      → HasOnly ip Old (record n { network = (ban_found order now n.network found).0 })
  unfolding ban_found
  ban_found-HasOnly order now n none k = k
  ban_found-HasOnly order now n (some p) k = record {
    stored = rw (slice_peers order n.network.controller.peers) k.stored;
    online = k.online;
    arriving = k.arriving;
    dialling = k.dialling;
  }

  pub ban_peer-HasOnly :
      (order : Order) (now : ℕ) (hash : GoString) (n : Node)
      → HasOnly ip Old n
      → HasOnly ip Old (ban_peer order now hash n)
  unfolding ban_peer ban_hash
  ban_peer-HasOnly order now hash n k =
      let (network, stopped) = ban_hash order now n.network hash in
      stop_peers-HasOnly stopped (record n { network = network })
        (ban_found-HasOnly order now n (get n.network.controller.peers hash) k)
