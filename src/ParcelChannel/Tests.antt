-- ===== src/ParcelChannel/Tests.antt =====
-- A channel of capacity 4 on concrete parcels.
use factom_p2p.Prelude.{ℕ, ◌≡◌, refl, true, List, [], ◌∷◌, arith}
use factom_p2p.ParcelChannel.{Channel, send, drain}
use factom_p2p.ParcelChannel.Send.{send_lem}
use factom_p2p.ParcelChannel.Stream.{Op, sends, receives, InOrder, run, opened, sent, run-InOrder}

abbrev full : Channel ℕ
full = record { capacity = 4; queue = 1 ∷ 2 ∷ 3 ∷ 4 ∷ [] }

send-full : send full 5 ≡ (record { capacity = 4; queue = 3 ∷ 4 ∷ 5 ∷ [] }, true, 2)
unfolding send drain
send-full = refl

send_lem_example : send full 5 ≡ (record { capacity = 4; queue = 3 ∷ 4 ∷ 5 ∷ [] }, true, 2)
send_lem_example = send_lem full 5 (omega arith) (omega arith)

abbrev traffic : List (Op ℕ)
traffic = sends 1 ∷ sends 2 ∷ receives ∷ sends 3 ∷ sends 4 ∷ receives ∷ []

run-InOrder_example : InOrder 2 (sent traffic) (run (opened 2) traffic)
run-InOrder_example = run-InOrder 2 traffic (omega arith)
