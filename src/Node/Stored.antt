-- ===== src/Node/Stored.antt =====
-- A property of all the peers that a node has: those in the store, and those that wait in peerStatus.
use factom_p2p.Prelude.{
  ◌≡◌, true, Option, none, some, List, [], ◌∷◌, ◌==◌, GoMap, lookup, insert, delete, string_eq,
  str_eq, All, Bool-cases, Option-cases, inl, inr,
}
use factom_p2p.Net.{GoString}
use factom_p2p.PeerStore as Store
use factom_p2p.PeerStore.{Peer, PeerStore, add, put, remove, take_out}
use factom_p2p.Controller.Online.{Status, come_online, handle_status}

-- A property of the peers in a map, and of those that are to come online.
abbrev pub AllStored : (Peer → Type 0) → GoMap GoString Peer → Type 0
AllStored P m = All (λ (kv : GoString × Peer). P kv.1) m

abbrev pub AllOnline : (Peer → Type 0) → List Status → Type 0
AllOnline P ss = All (λ (s : Status). s.online ≡ true → P s.peer) ss

module _ (P : Peer → Type 0) where
  insert-AllStored :
      (h : GoString) (p : Peer) (m : GoMap GoString Peer)
      → P p
      → AllStored P m
      → AllStored P (insert h p m)
  unfolding insert
  insert-AllStored h p [] x k = (x, tt)
  insert-AllStored h p ((j, q) ∷ m) x k = elim (Bool-cases (str_eq j h)) [
    | inl same ↦ rw same (x, k.1)
    | inr other ↦ rw other (k.0, insert-AllStored h p m x k.1)
  ]

  delete-AllStored :
      (h : GoString) (m : GoMap GoString Peer) → AllStored P m → AllStored P (delete h m)
  unfolding delete
  delete-AllStored h [] k = tt
  delete-AllStored h ((j, q) ∷ m) k = elim (Bool-cases (str_eq j h)) [
    | inl same ↦ rw same (delete-AllStored h m k.1)
    | inr other ↦ rw other (k.0, delete-AllStored h m k.1)
  ]

  remove-AllStored :
      (ps : PeerStore) (o : Option Peer) → AllStored P ps.peers → AllStored P (remove ps o).peers
  unfolding remove take_out
  remove-AllStored ps none k = k
  remove-AllStored ps (some p) k = elim (Option-cases (lookup p.hash ps.peers)) [
    | inl e ↦ rw (e, remove) k
    | inr (old, e) ↦ elim (Bool-cases (old.ref == p.ref)) [
      | inl same ↦ rw (e, remove, same) (delete-AllStored p.hash ps.peers k)
      | inr other ↦ rw (e, remove, other) k
    ]
  ]

  add-AllStored :
      (ps : PeerStore) (p : Peer)
      → P p
      → AllStored P ps.peers
      → AllStored P (add ps (some p)).0.peers
  unfolding add put
  add-AllStored ps p x k = elim (Option-cases (lookup p.hash ps.peers)) [
    | inl e ↦ rw (e, add) (insert-AllStored p.hash p ps.peers x k)
    | inr (old, e) ↦ rw (e, add) k
  ]

  come_online-AllStored :
      (ps : PeerStore) (p : Peer)
      → P p
      → AllStored P ps.peers
      → AllStored P (come_online ps p).0.peers
  unfolding come_online
  come_online-AllStored ps p x k = elim (Option-cases (Store.get ps p.hash)) [
    | inl e ↦ rw (e, come_online) (add-AllStored ps p x k)
    | inr (old, e) ↦
        rw (e, come_online)
          (add-AllStored (remove ps (some old)) p x (remove-AllStored ps (some old) k))
  ]

  pub handle_status-AllStored :
      (ps : PeerStore) (s : Status)
      → (s.online ≡ true → P s.peer)
      → AllStored P ps.peers
      → AllStored P (handle_status ps s).0.peers
  unfolding handle_status come_online
  handle_status-AllStored ps s x k = elim (Bool-cases s.online) [
    | inl on ↦ rw on (come_online-AllStored ps s.peer (x on) k)
    | inr off ↦ rw off (remove-AllStored ps (some s.peer) k)
  ]
