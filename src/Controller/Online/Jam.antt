-- ===== src/Controller/Online/Jam.antt =====
-- peerStatus as the channel of ten that newController makes, with manageOnline as its only reader:
-- manageOnline itself sends on the channel, in old.Stop(), when it replaces a peer. Of the calls of
-- Stop on a peer only the first reports, and the others return once it has. What happens when the
-- network stops is left out.
use factom_p2p.Prelude.{
  ℕ, ◌≤◌, ◌≡◌, ◌∙◌, refl, Bool, false, not, ◌&&◌, Option, none, some, List, [], ◌∷◌, ◌++◌, ◌==◌,
  any_of, length, ltb, arith, Bool-cases, inl, inr, if◌then◌else◌,
}
use factom_p2p.PeerStore.{Peer, PeerStore, add, remove, get}
use factom_p2p.Controller.Online.{Status}

-- `c.peerStatus = make(chan peerStatus, 10)`
abbrev pub status_capacity : ℕ
status_capacity = 10

-- `waiting` has the reports of the goroutines that wait to send, and `replacing` the peer in whose
-- Stop manageOnline is, with the peer that takes its place. `gone` has the pointers of the peers
-- on which Stop was called.
pub record Manager : Type 0 where
  pub store : PeerStore
  pub queue : List Status
  pub waiting : List Status
  pub replacing : Option (Peer × Peer)
  pub gone : List ℕ

unfoldable pub is_gone : Peer → Manager → Bool
is_gone p m = any_of (λ ref. ref == p.ref) m.gone

-- The first goroutine that waits gets its report in when there is room.
unfoldable pub admit : List Status → List Status → List Status × List Status
admit queue [] = (queue, [])
admit queue (s ∷ ss) =
    if ltb (length queue) status_capacity then (queue ++ s ∷ [], ss) else (queue, s ∷ ss)

-- The report that the peer is offline waits for room.
unfoldable pub is_waiting : Peer → Manager → Bool
is_waiting p m = any_of (λ (s : Status). s.peer.ref == p.ref && not s.online) m.waiting

abbrev enqueue : Status → Manager → Manager
enqueue s m =
    if ltb (length m.queue) status_capacity
    then record m { queue = m.queue ++ s ∷ [] }
    else record m { waiting = m.waiting ++ s ∷ [] }

-- A handshake reports that a peer is online, and the first Stop that it is offline.
unfoldable pub report : Status → Manager → Manager
unfolding is_gone
report s m =
    if s.online
    then enqueue s m
    else if is_gone s.peer m
    then m
    else enqueue s (record m { gone = s.peer.ref ∷ m.gone })

-- The case of an online peer, with what the store has for its hash.
unfoldable pub take_online : Option Peer → Peer → Manager → Manager
unfolding is_gone is_waiting
take_online none p m = record m { store = (add m.store (some p)).0 }
take_online (some old) p m =
    if is_gone old m && not (is_waiting old m)
    then record m { store = (add (remove m.store (some old)) (some p)).0 }
    else record m { replacing = some (old, p); gone = old.ref ∷ m.gone }

abbrev pub take_report : List Status → Manager → Manager
take_report [] m = m
take_report (s ∷ queue) m =
    let (queue', waiting) = admit queue m.waiting in
    let m' = record m { queue = queue'; waiting = waiting } in
    if s.online
    then take_online (get m.store s.peer.hash) s.peer m'
    else record m' { store = remove m.store (some s.peer) }

-- manageOnline goes on: with its own report if it has one to send, and else with the next one.
unfoldable pub manage : Option (Peer × Peer) → Manager → Manager
unfolding admit take_online
manage none m = take_report m.queue m
manage (some (old, p)) m =
    if ltb (length m.queue) status_capacity
    then record m {
      queue = m.queue ++ record { peer = old; online = false } ∷ [];
      store = (add (remove m.store (some old)) (some p)).0;
      replacing = none;
    }
    else m

pub data Step : Type 0 where
  -- a handshake, or the Stop of a peer in another goroutine
  reports : Status → Step
  goes_on : Step

unfoldable pub step : Manager → Step → Manager
unfolding report manage
step m (reports s) = report s m
step m goes_on = manage m.replacing m

unfoldable pub run : Manager → List Step → Manager
run m [] = m
run m (s ∷ steps) = run (step m s) steps

-- manageOnline waits to send to itself.
pub record Jammed (store : PeerStore) (old p : Peer) (queue : List Status) (m : Manager)
    : Type 0 where
  pub same_store : m.store ≡ store
  pub waits : m.replacing ≡ some (old, p)
  pub same_queue : m.queue ≡ queue
  pub is_full : status_capacity ≤ length queue

same-Jammed :
    (store : PeerStore) (old p : Peer) (queue : List Status) (m n : Manager)
    → n.store ≡ m.store
    → n.replacing ≡ m.replacing
    → n.queue ≡ m.queue
    → Jammed store old p queue m
    → Jammed store old p queue n
same-Jammed store old p queue m n e f g j = record {
  same_store = e ∙ j.same_store;
  waits = f ∙ j.waits;
  same_queue = g ∙ j.same_queue;
  is_full = j.is_full;
}

step-Jammed :
    (store : PeerStore) (old p : Peer) (queue : List Status) (m : Manager) (s : Step)
    → Jammed store old p queue m
    → Jammed store old p queue (step m s)
unfolding step report manage
step-Jammed store old p queue m (reports s) j =
    let full : ltb (length m.queue) 10 ≡ false = ground (arith, j.same_queue, j.is_full) in
    elim (Bool-cases s.online) [
      | inl on ↦ simp (on, full) (same-Jammed store old p queue m _ refl refl refl j)
      | inr off ↦ elim (Bool-cases (is_gone s.peer m)) [
        | inl gone ↦ simp (off, gone) j
        | inr first ↦ simp (off, first, full) (same-Jammed store old p queue m _ refl refl refl j)
      ]
    ]
step-Jammed store old p queue m goes_on j =
    let full : ltb (length m.queue) 10 ≡ false = ground (arith, j.same_queue, j.is_full) in
    rw (j.waits, manage, full)
      (record {
        same_store = j.same_store;
        waits = refl;
        same_queue = j.same_queue;
        is_full = j.is_full;
      })

run_from-Jammed :
    (store : PeerStore) (old p : Peer) (queue : List Status) (m : Manager) (steps : List Step)
    → Jammed store old p queue m
    → Jammed store old p queue (run m steps)
unfolding run
run_from-Jammed store old p queue m [] j = j
run_from-Jammed store old p queue m (s ∷ steps) j =
    run_from-Jammed store old p queue (step m s) steps (step-Jammed store old p queue m s j)

-- Once manageOnline is to replace a peer while the channel is full, it waits for ever: whatever
-- other goroutines report, the store stays as it is, the replacing peer is not taken in, and the
-- reports in the channel are not read.
pub run-Jammed :
    (m : Manager) (old p : Peer) (steps : List Step)
    → m.replacing ≡ some (old, p)
    → status_capacity ≤ length m.queue
    → Jammed m.store old p m.queue (run m steps)
run-Jammed m old p steps waits full =
    run_from-Jammed m.store old p m.queue m steps
      (record { same_store = refl; waits = waits; same_queue = refl; is_full = full })
