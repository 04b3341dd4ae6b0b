-- ===== src/Controller/ShareRequest/Tests.antt =====
-- One response in time, and two of which one is late.
use factom_p2p.Prelude.{
  ◌≡◌, ◌≤◌, ◌+◌, ◌*◌, ◌⊎◌, refl, true, none, some, List, [], ◌∷◌, length, arith,
}
use factom_p2p.Net.{bytes}
use factom_p2p.Parcel.{Parcel, type_peer_response}
use factom_p2p.Controller.ShareRequest.{
  Exchange, Op, arrives, puts, receives, processes, deletes, deleting, finished, start, step, run,
}
use factom_p2p.Controller.ShareRequest.Progress.{
  arrivals, Proceeds, run-Proceeds, late, locked, late-locked,
}

abbrev response : Parcel
response = record { ptype = type_peer_response; address = []; payload = bytes "[]" }

abbrev ops : List Op
ops = arrives response ∷ puts ∷ receives ∷ processes ∷ []

abbrev processed : Exchange
processed = record { phase = deleting; registered = true; async = []; sending = none }

run-ops : run start ops ≡ some processed
unfolding run step start
run-ops = refl

one_arrival : arrivals ops ≤ 1
unfolding arrivals
one_arrival = omega arith

run-Proceeds_example :
    (length ops ≤ 3 + 2 * arrivals ops) × ((processed.phase ≡ finished) ⊎ Proceeds processed)
run-Proceeds_example = run-Proceeds processed ops run-ops one_arrival

late-locked_example :
    (run start (late response response) ≡ some (locked response response))
    × (step (locked response response) deletes ≡ none)
late-locked_example = late-locked response response deletes
