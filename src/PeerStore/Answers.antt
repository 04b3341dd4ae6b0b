-- ===== src/PeerStore/Answers.antt =====
-- What the store's counters and tests answer after any sequence of method calls.
use factom_p2p.Prelude.{
  ℕ, ◌+◌, ◌≡◌, ◌↔◌, ◌⊎◌, true, some, List, total, total_pos, total-ge, str_eq_iff, string_eq, arith,
}
use factom_p2p.Prelude.Int.{pos}
use factom_p2p.Net.{GoString}
use factom_p2p.Endpoint.{Endpoint, to_string}
use factom_p2p.PeerStore as Store
use factom_p2p.PeerStore.{Peer, PeerStore, new_peer_store}
use factom_p2p.PeerStore.Consistency.{IsConsistent, uses, inbound, outbound}
use factom_p2p.PeerStore.History.{Op, run, run-IsConsistent, total-split}

-- A stored peer that the address names, by its IP or by its "ip:port".
abbrev pub Uses : GoString → PeerStore → Type 0
Uses addr ps =
    (h : GoString) × (p : Peer) × (Store.get ps h ≡ some p)
    × ((p.endpoint.ip ≡ addr) ⊎ (to_string p.endpoint ≡ addr))

module _ (heap : ℕ → Peer) (ps : PeerStore) (v : IsConsistent heap ps) where
  connected→Uses : (ep : Endpoint) → Store.connected ps ep ≡ true → Uses (to_string ep) ps
  unfolding Store.connected Store.get
  connected→Uses ep h =
      let (k, p, e, u) =
        total_pos (uses (to_string ep)) ps.peers v.distinct
          (ground (arith, v.addresses.counts (to_string ep))) in
      (
        k,
        p,
        e,
        ground (
          arith,
          str_eq_iff p.endpoint.ip (to_string ep),
          str_eq_iff (to_string p.endpoint) (to_string ep),
        ),
      )

  Uses→connected : (ep : Endpoint) → Uses (to_string ep) ps → Store.connected ps ep ≡ true
  unfolding Store.connected Store.get
  Uses→connected ep (k, p, e, u) = ground (
    arith,
    v.addresses.counts (to_string ep),
    total-ge (uses (to_string ep)) k p ps.peers,
    str_eq_iff p.endpoint.ip (to_string ep),
    str_eq_iff (to_string p.endpoint) (to_string ep),
  )

module _ (heap : ℕ → Peer) (heap_ref : (r : ℕ) → (heap r).ref ≡ r) where
  -- After any calls on a new store, Connected says yes to an endpoint exactly if the store holds
  -- a peer whose "ip:port" it is, or whose IP is spelled like it.
  pub connected-run :
      (ops : List Op) (ep : Endpoint)
      → (Store.connected (run heap new_peer_store ops) ep ≡ true)
        ↔ Uses (to_string ep) (run heap new_peer_store ops)
  connected-run ops ep = (
    connected→Uses heap _ (run-IsConsistent heap heap_ref ops) ep,
    Uses→connected heap _ (run-IsConsistent heap heap_ref ops) ep,
  )

  -- After any calls on a new store, Incoming and Outgoing are not negative, and add up to Total.
  pub total-run :
      (ops : List Op)
      → let ps = run heap new_peer_store ops in
        (n : ℕ) × (m : ℕ) × (ps.incoming ≡ pos n) × (ps.outgoing ≡ pos m) × (n + m ≡ Store.total ps)
  unfolding Store.total
  total-run ops =
      let ps = run heap new_peer_store ops in
      let v = run-IsConsistent heap heap_ref ops in
      (
        total inbound ps.peers,
        total outbound ps.peers,
        v.incoming,
        v.outgoing,
        total-split heap ps.peers,
      )
