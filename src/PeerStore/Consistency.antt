-- ===== src/PeerStore/Consistency.antt =====
-- The invariant of the store, and that every method keeps it.
use factom_p2p.Prelude.{
  ℕ, ◌+◌, ◌≡◌, refl, sym, ap, ◌∙◌, not, Option, none, some, List, [], ◌∷◌, Perm, GoMap, lookup,
  insert, delete, total, values, lookup-insert, lookup-delete, Distinct, Distinct-append,
  insert-append, total-append, total-delete, delete-Distinct, str_eq, str_eq_iff, string_eq, ◌==◌,
  arith, Option-cases, Bool-cases, inl, inr,
}
use factom_p2p.Prelude.Int.{ℤ, pos}
use factom_p2p.Net.{GoString}
use factom_p2p.Endpoint.{to_string}
use factom_p2p.PeerStore.{
  Peer, PeerStore, new_peer_store, count_up, count_down, count_at, put, take_out, add, remove,
  slice,
}
use factom_p2p.PeerStore.Counts.{CountsOf, one_if, count_up-CountsOf, count_down-CountsOf}

-- How often a peer counts for an address: for its IP and for its "ip:port".
abbrev pub uses : GoString → Peer → ℕ
uses addr p = one_if (str_eq p.endpoint.ip addr) + one_if (str_eq (to_string p.endpoint) addr)

abbrev pub inbound : Peer → ℕ
inbound p = one_if p.is_incoming

abbrev pub outbound : Peer → ℕ
outbound p = one_if (not p.is_incoming)

-- The cached slice, if there is one, has the peers of the map in some order.
abbrev pub Cached : Option (List Peer) → GoMap GoString Peer → Type 0
Cached none m = Unit {0}
Cached (some l) m = Perm l (values m)

-- `heap` is what each pointer points to.
pub record IsConsistent (heap : ℕ → Peer) (ps : PeerStore) : Type 0 where
  pub distinct : Distinct ps.peers
  pub keyed : (h : GoString) (p : Peer) → lookup h ps.peers ≡ some p → p.hash ≡ h
  pub identity : (h : GoString) (p : Peer) → lookup h ps.peers ≡ some p → p ≡ heap p.ref
  pub addresses : CountsOf (λ addr. total (uses addr) ps.peers) ps.connected
  pub incoming : ps.incoming ≡ pos (total inbound ps.peers)
  pub outgoing : ps.outgoing ≡ pos (total outbound ps.peers)
  pub cached : Cached ps.cur_slice ps.peers

pub new_peer_store-IsConsistent : (heap : ℕ → Peer) → IsConsistent heap new_peer_store
unfolding new_peer_store lookup total count_at
new_peer_store-IsConsistent heap = record {
  distinct = tt;
  keyed = λ h p e. cc;
  identity = λ h p e. cc;
  addresses = record { counts = λ addr. refl; no_zero = λ addr e. cc };
  incoming = refl;
  outgoing = refl;
  cached = tt;
}

CountsOf-ext :
    (n m : GoString → ℕ) (c : GoMap GoString ℤ)
    → ((addr : GoString) → n addr ≡ m addr)
    → CountsOf n c
    → CountsOf m c
CountsOf-ext n m c h v = record {
  counts = λ addr. v.counts addr ∙ ap pos (h addr);
  no_zero = v.no_zero;
}

module _ (heap : ℕ → Peer) (ps : PeerStore) (v : IsConsistent heap ps) where
  -- A new peer counts once for each of the sums.
  total-put :
      (f : Peer → ℕ) (p : Peer)
      → lookup p.hash ps.peers ≡ none
      → total f (insert p.hash p ps.peers) ≡ total f ps.peers + f p
  total-put f p h =
      rw (insert-append p.hash p ps.peers h, total-append f ps.peers ((p.hash, p) ∷ []))
        (unfold total in omega arith)

  put-addresses :
      (p : Peer)
      → lookup p.hash ps.peers ≡ none
      → CountsOf
          (λ addr. total (uses addr) (insert p.hash p ps.peers))
          (count_up (to_string p.endpoint) (count_up p.endpoint.ip ps.connected))
  put-addresses p h =
      CountsOf-ext _ _ _ (λ addr. omega (arith, total-put (uses addr) p h))
        (count_up-CountsOf _ _ (count_up-CountsOf _ _ v.addresses p.endpoint.ip)
          (to_string p.endpoint))

  put-IsConsistent :
      (p : Peer) → p ≡ heap p.ref → lookup p.hash ps.peers ≡ none → IsConsistent heap (put ps p)
  unfolding put
  put-IsConsistent p i h = record {
    distinct =
        rw (insert-append p.hash p ps.peers h) (Distinct-append p.hash p ps.peers h v.distinct);
    keyed = λ k q e.
        ground (arith, lookup-insert p.hash k p ps.peers, str_eq_iff p.hash k, v.keyed k q);
    identity = λ k q e.
        ground (arith, lookup-insert p.hash k p ps.peers, str_eq_iff p.hash k, v.identity k q);
    addresses = put-addresses p h;
    incoming = ground (arith, v.incoming, total-put inbound p h);
    outgoing = ground (arith, v.outgoing, total-put outbound p h);
    cached = tt;
  }

  total-take_out :
      (f : Peer → ℕ) (p : Peer)
      → lookup p.hash ps.peers ≡ some p
      → total f (delete p.hash ps.peers) + f p ≡ total f ps.peers
  total-take_out f p h = total-delete f p.hash p ps.peers v.distinct h

  take_out-addresses :
      (p : Peer)
      → lookup p.hash ps.peers ≡ some p
      → CountsOf
          (λ addr. total (uses addr) (delete p.hash ps.peers))
          (count_down (to_string p.endpoint) (count_down p.endpoint.ip ps.connected))
  take_out-addresses p h =
      count_down-CountsOf _ _
        (count_down-CountsOf _ _ v.addresses
          (λ addr.
            total (uses addr) (delete p.hash ps.peers)
            + one_if (str_eq (to_string p.endpoint) addr))
          p.endpoint.ip (λ addr. omega (arith, total-take_out (uses addr) p h)))
        (λ addr. total (uses addr) (delete p.hash ps.peers)) (to_string p.endpoint) (λ addr. refl)

  take_out-IsConsistent :
      (p : Peer) → lookup p.hash ps.peers ≡ some p → IsConsistent heap (take_out ps p p)
  unfolding take_out
  take_out-IsConsistent p h = record {
    distinct = delete-Distinct p.hash ps.peers v.distinct;
    keyed = λ k q e. ground (arith, lookup-delete p.hash k ps.peers, v.keyed k q);
    identity = λ k q e. ground (arith, lookup-delete p.hash k ps.peers, v.identity k q);
    addresses = take_out-addresses p h;
    incoming = ground (arith, v.incoming, total-take_out inbound p h);
    outgoing = ground (arith, v.outgoing, total-take_out outbound p h);
    cached = tt;
  }

  -- One pointer, one peer.
  same_peer :
      (p old : Peer)
      → p ≡ heap p.ref
      → lookup p.hash ps.peers ≡ some old
      → old.ref ≡ p.ref
      → old ≡ p
  same_peer p old i h e = v.identity p.hash old h ∙ ap heap e ∙ sym i

  pub add-IsConsistent : (p : Peer) → p ≡ heap p.ref → IsConsistent heap (add ps (some p)).0
  unfolding add
  add-IsConsistent p i = elim (Option-cases (lookup p.hash ps.peers)) [
    | inl e ↦ rw (e, add) (put-IsConsistent p i e)
    | inr (old, e) ↦ rw (e, add) v
  ]

  pub remove-IsConsistent : (p : Peer) → p ≡ heap p.ref → IsConsistent heap (remove ps (some p))
  unfolding remove
  remove-IsConsistent p i = elim (Option-cases (lookup p.hash ps.peers)) [
    | inl e ↦ rw (e, remove) v
    | inr (old, e) ↦ elim (Bool-cases (old.ref == p.ref)) [
      | inl same ↦
          let s = same_peer p old i e (ground arith) in
          rw (e, remove, same, s) (take_out-IsConsistent p (e ∙ ap some s))
      | inr other ↦ rw (e, remove, other) v
    ]
  ]

  pub slice-IsConsistent :
      (order : List Peer → List Peer)
      → ((l : List Peer) → Perm (order l) l)
      → IsConsistent heap (slice order ps).0
  unfolding slice
  slice-IsConsistent order o = elim (Option-cases ps.cur_slice) [
    | inl e ↦
        rw (e, slice)
          (record {
            distinct = v.distinct;
            keyed = v.keyed;
            identity = v.identity;
            addresses = v.addresses;
            incoming = v.incoming;
            outgoing = v.outgoing;
            cached = o (values ps.peers);
          })
    | inr (l, e) ↦ rw (e, slice) v
  ]

  -- Whether or not a cached slice is used, Slice returns every peer of the store once.
  pub slice-perm :
      (order : List Peer → List Peer)
      → ((l : List Peer) → Perm (order l) l)
      → Perm (slice order ps).1 (values ps.peers)
  unfolding slice
  slice-perm order o = elim (Option-cases ps.cur_slice) [
    | inl e ↦ rw (e, slice) (o (values ps.peers))
    | inr (l, e) ↦ rw (e, slice) (rw e at v.cached)
  ]
