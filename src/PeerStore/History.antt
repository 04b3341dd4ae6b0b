-- ===== src/PeerStore/History.antt =====
-- The store after any sequence of method calls, against a map from hashes to pointers.
use factom_p2p.Prelude.{
  ℕ, ◌+◌, ◌≡◌, refl, sym, ap, ◌∙◌, Option, none, some, List, [], ◌∷◌, Perm, lookup, GoMap, total,
  lookup-insert, lookup-delete, length, str_eq, string_eq, ◌==◌, if◌then◌else◌, arith,
}
use factom_p2p.Net.{GoString}
use mathlib.Core.Path.{fun_ext}
use factom_p2p.PeerStore.{Peer, PeerStore, new_peer_store, add, remove, slice, get, put, take_out}
use factom_p2p.PeerStore.Consistency.{
  IsConsistent, inbound, outbound, new_peer_store-IsConsistent, add-IsConsistent,
  remove-IsConsistent, slice-IsConsistent,
}

-- The order in which Go goes over a map.
pub record RangeOrder : Type 0 where
  pub order : List Peer → List Peer
  pub permutes : (l : List Peer) → Perm (order l) l

-- Calls with pointers; `none` is nil.
pub data Op : Type 0 where
  adds removes : Option ℕ → Op
  slices : RangeOrder → Op

module _ (heap : ℕ → Peer) where
  abbrev deref : Option ℕ → Option Peer
  deref none = none
  deref (some r) = some (heap r)

  unfoldable pub step : PeerStore → Op → PeerStore
  step ps (adds r) = (add ps (deref r)).0
  step ps (removes r) = remove ps (deref r)
  step ps (slices o) = (slice o.order ps).0

  unfoldable pub run : PeerStore → List Op → PeerStore
  run ps [] = ps
  run ps (o ∷ ops) = run (step ps o) ops

  module _ (heap_ref : (r : ℕ) → (heap r).ref ≡ r) where
    step-IsConsistent :
        (ps : PeerStore) (o : Op) → IsConsistent heap ps → IsConsistent heap (step ps o)
    unfolding step add remove
    step-IsConsistent ps (adds none) v = v
    step-IsConsistent ps (adds (some r)) v =
        add-IsConsistent heap ps v (heap r) (ap heap (sym (heap_ref r)))
    step-IsConsistent ps (removes none) v = v
    step-IsConsistent ps (removes (some r)) v =
        remove-IsConsistent heap ps v (heap r) (ap heap (sym (heap_ref r)))
    step-IsConsistent ps (slices o) v = slice-IsConsistent heap ps v o.order o.permutes

    run-IsConsistent_from :
        (ps : PeerStore) (ops : List Op) → IsConsistent heap ps → IsConsistent heap (run ps ops)
    unfolding run
    run-IsConsistent_from ps [] v = v
    run-IsConsistent_from ps (o ∷ ops) v =
        run-IsConsistent_from (step ps o) ops (step-IsConsistent ps o v)

    -- After any calls on a new store, failing ones too: its hashes are distinct and are those of
    -- the peers; the count of every address is the number of times that the stored peers use it,
    -- as IP or as "ip:port", and no count is stored as 0; the two counters are the numbers of
    -- stored peers of each direction; and a cached slice has the stored peers in some order.
    pub run-IsConsistent : (ops : List Op) → IsConsistent heap (run new_peer_store ops)
    run-IsConsistent ops =
        run-IsConsistent_from new_peer_store ops (new_peer_store-IsConsistent heap)

  pub total-split : (m : GoMap GoString Peer) → total inbound m + total outbound m ≡ length m
  unfolding total
  total-split [] = omega arith
  total-split ((k, p) ∷ m) = ground (arith, total-split m)

  -- The specification: a map from hashes to pointers.
  abbrev spec_step : (GoString → Option ℕ) → Op → GoString → Option ℕ
  spec_step m (adds none) h = m h
  spec_step m (adds (some r)) h = elim (m (heap r).hash) [
    | none ↦ if str_eq (heap r).hash h then some r else m h
    | some old ↦ m h
  ]
  spec_step m (removes none) h = m h
  spec_step m (removes (some r)) h = elim (m (heap r).hash) [
    | none ↦ m h
    | some old ↦ if old == r then if str_eq (heap r).hash h then none else m h else m h
  ]
  spec_step m (slices o) h = m h

  abbrev ref_of : Option Peer → Option ℕ
  ref_of none = none
  ref_of (some p) = some p.ref

  -- The pointers that Get finds.
  unfoldable pub refs : PeerStore → GoString → Option ℕ
  refs ps h = ref_of (get ps h)

  unfoldable pub spec_run : (GoString → Option ℕ) → List Op → GoString → Option ℕ
  spec_run m [] = m
  spec_run m (o ∷ ops) = spec_run (spec_step m o) ops

  module _ (heap_ref : (r : ℕ) → (heap r).ref ≡ r) where
    refs-adds :
        (ps : PeerStore) (r : ℕ) (h : GoString)
        → refs (step ps (adds (some r))) h ≡ spec_step (refs ps) (adds (some r)) h
    unfolding refs get step add put
    refs-adds ps r h = ground (arith, heap_ref r, lookup-insert (heap r).hash h (heap r) ps.peers)

    refs-removes :
        (ps : PeerStore) (r : ℕ) (h : GoString)
        → refs (step ps (removes (some r))) h ≡ spec_step (refs ps) (removes (some r)) h
    unfolding refs get step remove take_out
    refs-removes ps r h = ground (arith, heap_ref r, lookup-delete (heap r).hash h ps.peers)

    refs-step : (ps : PeerStore) (o : Op) → refs (step ps o) ≡ spec_step (refs ps) o
    unfolding step refs get
    refs-step ps (adds none) = unfold add in refl
    refs-step ps (adds (some r)) = fun_ext (refs-adds ps r)
    refs-step ps (removes none) = unfold remove in refl
    refs-step ps (removes (some r)) = fun_ext (refs-removes ps r)
    refs-step ps (slices o) = unfold slice in ground arith

    refs-run_from : (ps : PeerStore) (ops : List Op) → refs (run ps ops) ≡ spec_run (refs ps) ops
    unfolding run spec_run
    refs-run_from ps [] = refl
    refs-run_from ps (o ∷ ops) =
        refs-run_from (step ps o) ops ∙ ap (λ m. spec_run m ops) (refs-step ps o)

    -- After any calls on a new store, Get finds for each hash the pointer that the specification
    -- has for it: a map from hashes to pointers, to which Add adds a peer if its hash is not
    -- there, and from which Remove takes a peer if its hash is there with this very pointer.
    pub refs-run :
        (ops : List Op) (h : GoString)
        → refs (run new_peer_store ops) h ≡ spec_run (λ k. none) ops h
    unfolding new_peer_store refs get lookup
    refs-run ops h = ap (λ (m : GoString → Option ℕ). m h) (refs-run_from new_peer_store ops)
