-- ===== src/PeerStore/Tests.antt =====
-- A store of two peers from one address, and a pointer that shares its hash with one of them.
use mathlib.Core.List.Perm
use factom_p2p.Prelude.{ℕ, zero, suc, ◌+◌, ◌≡◌, refl, true, none, some, List, [], ◌∷◌, str_eq}
use factom_p2p.Prelude.Int.{pos}
use factom_p2p.Net.{GoString}
use factom_p2p.PeerStore as Store
use factom_p2p.PeerStore.{Peer, new_peer_store}
use factom_p2p.PeerStore.Consistency.{IsConsistent}
use factom_p2p.PeerStore.History.{
  Op, adds, removes, slices, RangeOrder, run, refs, spec_run, run-IsConsistent, refs-run,
}
use factom_p2p.PeerStore.Answers.{total-run}

abbrev peer_at : ℕ → GoString → GoString → Peer
peer_at ref hash port = record {
  ref = ref;
  hash = hash;
  endpoint = record { ip = b'a' ∷ []; port = port };
  is_incoming = true;
}

-- Pointers 0 and 2 have the hash "x".
abbrev heap : ℕ → Peer
heap zero = peer_at 0 (b'x' ∷ []) (b'1' ∷ [])
heap (suc zero) = peer_at 1 (b'y' ∷ []) (b'2' ∷ [])
heap (suc (suc r)) = peer_at (suc (suc r)) (b'x' ∷ []) (b'1' ∷ [])

heap_ref : (r : ℕ) → (heap r).ref ≡ r
heap_ref zero = refl
heap_ref (suc zero) = refl
heap_ref (suc (suc r)) = refl

abbrev as_is : RangeOrder
as_is = record { order = λ l. l; permutes = λ l. Perm.refl l }

abbrev ops : List Op
ops =
    adds (some 0)
    ∷ adds (some 1)
    ∷ slices as_is
    ∷ removes (some 2)
    ∷ adds none
    ∷ removes (some 1)
    ∷ []

run-IsConsistent_example : IsConsistent heap (run heap new_peer_store ops)
run-IsConsistent_example = run-IsConsistent heap heap_ref ops

refs-run_example : refs heap (run heap new_peer_store ops) (b'x' ∷ []) ≡ some 0
unfolding spec_run str_eq
refs-run_example = refs-run heap heap_ref ops (b'x' ∷ [])

total-run_example :
    let ps = run heap new_peer_store ops in
    (n : ℕ) × (m : ℕ) × (ps.incoming ≡ pos n) × (ps.outgoing ≡ pos m) × (n + m ≡ Store.total ps)
total-run_example = total-run heap heap_ref ops
