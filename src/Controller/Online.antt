-- ===== src/Controller/Online.antt =====
-- manageOnline of controller_connections.go: the peers that report that they are online or
-- offline, one after the other. The calls of Stop are the list of the peers that they are made
-- on; a stopped peer reports that it is offline, in a later message. The gauges are left out.
pub mod Jam
mod Tests
use mathlib.Core.Path.{fun_ext}
use factom_p2p.Prelude.{
  ℕ, ◌≡◌, ◌≢◌, refl, sym, ap, ◌∙◌, Bool, true, false, Option, none, some, List, [], ◌∷◌, lookup,
  lookup-insert, lookup-delete, str_eq, str_eq_iff, str_eq_refl, string_eq, ◌==◌, ==_iff, arith,
  if◌then◌else◌, Option-cases, inl, inr,
}
use factom_p2p.Net.{GoString}
use factom_p2p.PeerStore as Store
use factom_p2p.PeerStore.{
  Peer, PeerStore, AddError, add, remove, put, take_out, get, new_peer_store,
}
use factom_p2p.PeerStore.Consistency.{
  IsConsistent, add-IsConsistent, remove-IsConsistent, new_peer_store-IsConsistent,
}

pub record Status : Type 0 where
  pub peer : Peer
  pub online : Bool

-- The store, the error of Add if there is one, and the peer that was stopped.
unfoldable pub come_online : PeerStore → Peer → PeerStore × Option AddError × List Peer
come_online ps p = elim (get ps p.hash) [
  | none ↦ let (ps', e) = add ps (some p) in (ps', e, [])
  | some old ↦ let (ps', e) = add (remove ps (some old)) (some p) in (ps', e, old ∷ [])
]

unfoldable pub handle_status : PeerStore → Status → PeerStore × Option AddError × List Peer
unfolding come_online
handle_status ps pc =
    if pc.online then come_online ps pc.peer else (remove ps (some pc.peer), none, [])

unfoldable pub manage_online : PeerStore → List Status → PeerStore
manage_online ps [] = ps
manage_online ps (pc ∷ pcs) = manage_online (handle_status ps pc).0 pcs

module _ (heap : ℕ → Peer) (ps : PeerStore) (v : IsConsistent heap ps) where
  get-remove_stored :
      (old : Peer) (h : GoString)
      → lookup old.hash ps.peers ≡ some old
      → get (remove ps (some old)) h ≡ (if str_eq old.hash h then none else get ps h)
  unfolding get remove take_out
  get-remove_stored old h e =
      ground (arith, lookup-delete old.hash h ps.peers, ==_iff old.ref old.ref)

  remove_stored-IsConsistent :
      (old : Peer) (h : GoString) → get ps h ≡ some old → IsConsistent heap (remove ps (some old))
  unfolding get
  remove_stored-IsConsistent old h e = remove-IsConsistent heap ps v old (v.identity h old e)

get-add_new :
    (ps : PeerStore) (p : Peer) (h : GoString)
    → get ps p.hash ≡ none
    → ((add ps (some p)).1 ≡ none)
      × (get (add ps (some p)).0 h ≡ (if str_eq p.hash h then some p else get ps h))
unfolding get add put
get-add_new ps p h e = (rw (e, add) refl, rw (e, add) (lookup-insert p.hash h p ps.peers))

module _ (heap : ℕ → Peer) (ps : PeerStore) (v : IsConsistent heap ps) (p : Peer)
    (i : p ≡ heap p.ref) where
  -- A peer that comes online is always taken into the store; the peer that had its hash, if there
  -- was one, is taken out and stopped; what the store has for other hashes stays.
  pub come_online_lem :
      let (ps', e, stopped) = come_online ps p in
      (e ≡ none)
      × (stopped ≡ (elim (get ps p.hash) [ none ↦ [] | some old ↦ old ∷ [] ]))
      × ((h : GoString) → get ps' h ≡ (if str_eq p.hash h then some p else get ps h))
      × IsConsistent heap ps'
  unfolding come_online
  come_online_lem = elim (Option-cases (get ps p.hash)) [
    | inl e ↦
        rw (e, come_online)
          (
            (get-add_new ps p p.hash e).0,
            refl,
            λ h. (get-add_new ps p h e).1,
            add-IsConsistent heap ps v p i,
          )
    | inr (old, e) ↦
        let same : old.hash ≡ p.hash = unfold get in v.keyed p.hash old e in
        let found : lookup p.hash ps.peers ≡ some old = unfold get in e in
        let there : lookup old.hash ps.peers ≡ some old = cc (same, found) in
        let freed : get (remove ps (some old)) p.hash ≡ none =
          get-remove_stored heap ps v old p.hash there
          ∙ ground (arith, str_eq_iff old.hash p.hash) in
        rw (e, come_online)
          (
            (get-add_new (remove ps (some old)) p p.hash freed).0,
            refl,
            λ h. ground (
              arith,
              (get-add_new (remove ps (some old)) p h freed).1,
              get-remove_stored heap ps v old h there,
              str_eq_iff old.hash h,
              str_eq_iff p.hash h,
            ),
            add-IsConsistent heap (remove ps (some old))
                (remove_stored-IsConsistent heap ps v old p.hash e) p i,
          )
  ]

module _ (heap : ℕ → Peer) (heap_ref : (r : ℕ) → (heap r).ref ≡ r) where
  -- The specification: the last peer that came online with a hash is the one of that hash, until
  -- this very peer goes offline.
  abbrev current_after : (GoString → Option Peer) → ℕ × Bool → GoString → Option Peer
  current_after m (r, true) h = if str_eq (heap r).hash h then some (heap r) else m h
  current_after m (r, false) h = elim (m (heap r).hash) [
    | none ↦ m h
    | some old ↦ if old.ref == r then if str_eq (heap r).hash h then none else m h else m h
  ]

  unfoldable pub current : (GoString → Option Peer) → List (ℕ × Bool) → GoString → Option Peer
  current m [] = m
  current m (s ∷ ss) = current (current_after m s) ss

  abbrev status_of : ℕ × Bool → Status
  status_of (r, online) = record { peer = heap r; online = online }

  abbrev pub statuses : List (ℕ × Bool) → List Status
  statuses [] = []
  statuses (s ∷ ss) = status_of s ∷ statuses ss

  get-offline :
      (ps : PeerStore) (r : ℕ) (h : GoString)
      → get (remove ps (some (heap r))) h ≡ current_after (get ps) (r, false) h
  unfolding get remove take_out
  get-offline ps r h = ground (arith, heap_ref r, lookup-delete (heap r).hash h ps.peers)

  get-handle_status :
      (ps : PeerStore) (s : ℕ × Bool)
      → IsConsistent heap ps
      → IsConsistent heap (handle_status ps (status_of s)).0
        × (get (handle_status ps (status_of s)).0 ≡ current_after (get ps) s)
  unfolding handle_status
  get-handle_status ps (r, true) v =
      let done = come_online_lem heap ps v (heap r) (ap heap (sym (heap_ref r))) in
      (done.3, fun_ext done.2)
  get-handle_status ps (r, false) v = (
    remove-IsConsistent heap ps v (heap r) (ap heap (sym (heap_ref r))),
    fun_ext (get-offline ps r),
  )

  get-manage_online_from :
      (ps : PeerStore) (ss : List (ℕ × Bool))
      → IsConsistent heap ps
      → IsConsistent heap (manage_online ps (statuses ss))
        × (get (manage_online ps (statuses ss)) ≡ current (get ps) ss)
  unfolding manage_online current
  get-manage_online_from ps [] v = (v, refl)
  get-manage_online_from ps (s ∷ ss) v =
      let (v', e) = get-handle_status ps s v in
      let (w, f) = get-manage_online_from (handle_status ps (status_of s)).0 ss v' in
      (w, f ∙ ap (λ m. current m ss) e)

  -- Over any reports of peers, in any order, the store has for each hash the last peer that came
  -- online with it, unless this very peer went offline since: a peer that was replaced does not
  -- take its replacement with it when it goes offline. The store's counts agree with its peers.
  pub get-manage_online :
      (ss : List (ℕ × Bool)) (h : GoString)
      → IsConsistent heap (manage_online new_peer_store (statuses ss))
        × (get (manage_online new_peer_store (statuses ss)) h ≡ current (λ k. none) ss h)
  unfolding new_peer_store get lookup
  get-manage_online ss h =
      let (v, e) = get-manage_online_from new_peer_store ss (new_peer_store-IsConsistent heap) in
      (v, ap (λ (m : GoString → Option Peer). m h) e)
