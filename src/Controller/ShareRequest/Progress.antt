-- ===== src/Controller/ShareRequest/Progress.antt =====
-- That an exchange ends, unless a second response comes.
use factom_p2p.Prelude.{
  ℕ, suc, ◌+◌, ◌*◌, ◌≤◌, ◌≡◌, ◌≢◌, ◌⊎◌, refl, Bool, true, Option, none, some, List, [], ◌∷◌, length,
  length-append, arith, Option-cases, inl, inr,
}
use factom_p2p.Parcel.{Parcel}
use factom_p2p.Controller.ShareRequest.{
  Phase, waiting, processing, deleting, finished, Exchange, start, Op, arrives, puts, receives,
  times_out, processes, deletes, step, put, run,
}

-- How many steps the two goroutines have before them.
abbrev left_of_phase : Phase → ℕ
left_of_phase waiting = 3
left_of_phase (processing p) = 2
left_of_phase deleting = 1
left_of_phase finished = 0

abbrev left_of_sending : Option Parcel → ℕ
left_of_sending none = 0
left_of_sending (some p) = 1

abbrev left : Exchange → ℕ
left e = left_of_phase e.phase + left_of_sending e.sending

abbrev pub is_arrival : Op → ℕ
is_arrival (arrives p) = 1
is_arrival _ = 0

unfoldable pub arrivals : List Op → ℕ
arrivals [] = 0
arrivals (op ∷ ops) = is_arrival op + arrivals ops

step-left :
    (e e' : Exchange) (op : Op) → step e op ≡ some e' → suc (left e') ≤ left e + 2 * is_arrival op
unfolding step
step-left e e' op h = ground arith

run-left :
    (e e' : Exchange) (ops : List Op)
    → run e ops ≡ some e'
    → length ops + left e' ≤ left e + 2 * arrivals ops
unfolding run arrivals
run-left e e' [] h = ground arith
run-left e e' (op ∷ ops) h = elim (Option-cases (step e op)) [
  | inl n ↦ cc (rw n at h)
  | inr (m, s) ↦
      let rest : run m ops ≡ some e' = rw s at h in
      omega (arith, step-left e m op s, run-left m e' ops rest)
]

abbrev load : Exchange → ℕ
load e = left_of_sending e.sending + length e.async

put-load :
    (e e' : Exchange) (o : Option Parcel) → e.sending ≡ o → put e o ≡ some e' → load e' ≤ load e + 0
put-load e e' none s h = cc
put-load e e' (some p) s h = ground (arith, length-append e.async (p ∷ []))

step-load : (e e' : Exchange) (op : Op) → step e op ≡ some e' → load e' ≤ load e + is_arrival op
unfolding step
step-load e e' (arrives p) h = ground arith
step-load e e' puts h = put-load e e' e.sending refl h
step-load e e' receives h = ground arith
step-load e e' times_out h = ground arith
step-load e e' processes h = ground arith
step-load e e' deletes h = ground arith

run-load : (e e' : Exchange) (ops : List Op) → run e ops ≡ some e' → load e' ≤ load e + arrivals ops
unfolding run arrivals
run-load e e' [] h = ground arith
run-load e e' (op ∷ ops) h = elim (Option-cases (step e op)) [
  | inl n ↦ cc (rw n at h)
  | inr (m, s) ↦
      let rest : run m ops ≡ some e' = rw s at h in
      omega (arith, step-load e m op s, run-load m e' ops rest)
]

-- A step of one of the two goroutines.
abbrev pub Proceeds : Exchange → Type 0
Proceeds e = (op : Op) × (e' : Exchange) × (is_arrival op ≡ 0) × (step e op ≡ some e')

lone-Proceeds :
    (phase : Phase) (registered : Bool) (async : List Parcel)
    → phase ≢ finished
    → Proceeds (record { phase = phase; registered = registered; async = async; sending = none })
unfolding step
lone-Proceeds waiting registered async h = (times_out, _, refl, refl)
lone-Proceeds (processing p) registered async h = (processes, _, refl, refl)
lone-Proceeds deleting registered async h = (deletes, _, refl, refl)
lone-Proceeds finished registered async h = absurd (h refl)

load-Proceeds :
    (phase : Phase) (registered : Bool) (async : List Parcel) (sending : Option Parcel)
    → left_of_sending sending + length async ≤ 1
    → phase ≢ finished
    → Proceeds (record { phase = phase; registered = registered; async = async; sending = sending })
unfolding step
load-Proceeds phase registered async none h n = lone-Proceeds phase registered async n
load-Proceeds phase registered [] (some p) h n = (puts, _, refl, refl)
load-Proceeds phase registered (q ∷ qs) (some p) h n = absurd (omega arith)

-- However the steps interleave, there are at most three of them and two for each response that
-- arrives; and where at most one response arrives, the exchange goes on until it is finished: as
-- long as it is not, one of the two goroutines has a step to take.
pub run-Proceeds :
    (e : Exchange) (ops : List Op)
    → run start ops ≡ some e
    → arrivals ops ≤ 1
    → (length ops ≤ 3 + 2 * arrivals ops) × ((e.phase ≡ finished) ⊎ Proceeds e)
unfolding start
run-Proceeds e ops h one = (omega (arith, run-left start e ops h), unfinished e.phase refl)
  where
    bounded : load e ≤ 1
    bounded = omega (arith, run-load start e ops h)

    unfinished : (phase : Phase) → e.phase ≡ phase → (e.phase ≡ finished) ⊎ Proceeds e
    unfinished finished p = inl p
    unfinished waiting p =
        inr (load-Proceeds e.phase e.registered e.async e.sending bounded (λ q. cc))
    unfinished (processing r) p =
        inr (load-Proceeds e.phase e.registered e.async e.sending bounded (λ q. cc))
    unfinished deleting p =
        inr (load-Proceeds e.phase e.registered e.async e.sending bounded (λ q. cc))

-- The exchange of two responses of which the second one comes after the timeout.
abbrev pub late : Parcel → Parcel → List Op
late p q = arrives p ∷ puts ∷ times_out ∷ arrives q ∷ []

abbrev pub locked : Parcel → Parcel → Exchange
locked p q = record { phase = deleting; registered = true; async = p ∷ []; sending = some q }

-- Two responses of one peer can block both goroutines for good: where the second one arrives
-- behind the timeout and before the channel is deleted, manageData waits for room in the channel
-- with the lock held, and the asking goroutine for the lock; no step can be taken from there.
pub late-locked :
    (p q : Parcel) (op : Op)
    → (run start (late p q) ≡ some (locked p q)) × (step (locked p q) op ≡ none)
unfolding start run step
late-locked p q (arrives r) = (refl, refl)
late-locked p q puts = (refl, refl)
late-locked p q receives = (refl, refl)
late-locked p q times_out = (refl, refl)
late-locked p q processes = (refl, refl)
late-locked p q deletes = (refl, refl)
