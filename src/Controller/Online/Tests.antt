-- ===== src/Controller/Online/Tests.antt =====
-- A peer that is replaced by another of its hash, and goes offline after that.
use factom_p2p.Prelude.{
  ℕ, zero, suc, ◌≡◌, ◌≤◌, refl, true, false, Bool, none, some, List, [], ◌∷◌, ◌++◌, str_eq,
  if◌then◌else◌, length, lookup, insert, arith,
}
use factom_p2p.Net.{GoString, bytes}
use factom_p2p.PeerStore.{Peer, new_peer_store, get, add, put}
use factom_p2p.PeerStore.Consistency.{IsConsistent, new_peer_store-IsConsistent}
use factom_p2p.Controller.Online.{
  come_online, manage_online, come_online_lem, get-manage_online, statuses, current,
}
use factom_p2p.Controller.Online.Jam.{
  Manager, Step, reports, goes_on, Jammed, run-Jammed, run, step, report, manage, take_online,
  admit, is_gone, is_waiting, status_capacity,
}

abbrev heap : ℕ → Peer
heap ref = record {
  ref = ref;
  hash = bytes "x";
  endpoint = record { ip = bytes "a"; port = bytes "1" };
  is_incoming = true;
}

abbrev history : List (ℕ × Bool)
history = (0, true) ∷ (1, true) ∷ (0, false) ∷ []

get-manage_online_example :
    IsConsistent heap (manage_online new_peer_store (statuses heap (λ r. refl) history))
    × (get (manage_online new_peer_store (statuses heap (λ r. refl) history)) (bytes "x")
        ≡ current heap (λ r. refl) (λ k. none) history (bytes "x"))
get-manage_online_example = get-manage_online heap (λ r. refl) history (bytes "x")

-- The replacement is the one that the store has at the end.
current_replacement : current heap (λ r. refl) (λ k. none) history (bytes "x") ≡ some (heap 1)
unfolding current str_eq
current_replacement = refl

come_online_lem_example :
    let (ps', e, stopped) = come_online new_peer_store (heap 0) in
    (e ≡ none)
    × (stopped ≡ (elim (get new_peer_store (bytes "x")) [ none ↦ [] | some old ↦ old ∷ [] ]))
    × ((h : GoString)
        → get ps' h ≡ (if str_eq (bytes "x") h then some (heap 0) else get new_peer_store h))
    × IsConsistent heap ps'
come_online_lem_example =
    come_online_lem heap new_peer_store (new_peer_store-IsConsistent heap) (heap 0) refl

-- Peers with numbers from `n` on go offline.
abbrev offline : ℕ → ℕ → List Step
offline zero n = []
offline (suc k) n = reports (record { peer = heap n; online = false }) ∷ offline k (suc n)

-- A peer is online, and its replacement reports before ten others do.
abbrev early : List Step
early =
    reports (record { peer = heap 0; online = true })
    ∷ goes_on
    ∷ reports (record { peer = heap 1; online = true })
    ∷ offline 10 2

abbrev jammed : Manager
jammed =
    run (record { store = new_peer_store; queue = []; waiting = []; replacing = none; gone = [] })
      (early ++ goes_on ∷ [])

jammed_waits : jammed.replacing ≡ some (heap 0, heap 1)
unfolding run step report manage take_online admit is_gone is_waiting get add put lookup insert
    str_eq new_peer_store
jammed_waits = refl

jammed_full : status_capacity ≤ length jammed.queue
unfolding run step report manage take_online admit is_gone is_waiting get add put lookup insert
    str_eq new_peer_store
jammed_full = grind arith

run-Jammed_example : Jammed jammed.store (heap 0) (heap 1) jammed.queue (run jammed early)
run-Jammed_example = run-Jammed jammed (heap 0) (heap 1) early jammed_waits jammed_full
