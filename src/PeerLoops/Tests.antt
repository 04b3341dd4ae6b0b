-- ===== src/PeerLoops/Tests.antt =====
-- A peer that gets a parcel, an invalid one, and stops twice.
use factom_p2p.Prelude.{
  ◌≡◌, ◌⊎◌, ◌≤◌, ◌++◌, length, arith, refl, Bool, true, false, Option, none, some, List, [], ◌∷◌,
  if◌then◌else◌,
}
use factom_p2p.Net.{bytes}
use factom_p2p.Parcel.{Parcel, new_parcel, valid, type_message}
use factom_p2p.PeerLoops.{new_peer, read_loop}
use factom_p2p.PeerLoops.Reading.{accepted, read_loop-accepted}
use factom_p2p.ParcelChannel.Stream.{IsSubsequence}
use factom_p2p.PeerLoops.Stopping.{Op, run, run-reports, is_quit, sends, stops, reads, transmits}
use factom_p2p.PeerLoops.Writing.{sent, run-written}

abbrev message : Parcel
message = new_parcel type_message (1 ∷ 2 ∷ [])

-- The second parcel has no payload, and the third is not read.
abbrev received : List (Bool × Option Parcel)
received =
    (false, some message) ∷ (false, some (new_parcel type_message [])) ∷ (false, some message) ∷ []

accepted-received : accepted (bytes "x") received ≡ record message { address = bytes "x" } ∷ []
unfolding accepted valid new_parcel
accepted-received = refl

read_loop-accepted_example :
    (read_loop (new_peer (bytes "x") 4 true) received).delivered
    ≡ [] ++ accepted (bytes "x") received
unfolding new_peer
read_loop-accepted_example = read_loop-accepted (new_peer (bytes "x") 4 true) received refl

abbrev ops : List Op
ops = sends message ∷ reads false (some message) ∷ stops ∷ reads false none ∷ stops ∷ []

run-reports_example :
    let p = run (new_peer (bytes "x") 4 true) ops in
    (p.reports ≡ (if p.stopped then 1 else 0)) ⊎ ((p.reports ≡ 0) × (is_quit ops ≡ true))
run-reports_example = run-reports (bytes "x") 4 true ops

-- Of three parcels one is written, the second is lost to a failed write, and the third comes too
-- late.
abbrev writing : List Op
writing = sends message ∷ sends message ∷ transmits true ∷ transmits false ∷ sends message ∷ []

run-written_example :
    let p = run (new_peer (bytes "x") 4 true) writing in
    IsSubsequence (p.written ++ p.send.queue) (sent writing) × (length p.send.queue ≤ 4)
run-written_example = run-written (bytes "x") 4 true writing (omega arith)
