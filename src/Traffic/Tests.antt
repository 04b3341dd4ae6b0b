-- ===== src/Traffic/Tests.antt =====
-- Writes on both sides of a tick.
use factom_p2p.Prelude.{◌≡◌, refl, List, [], ◌∷◌}
use factom_p2p.Traffic.{
  Op, writes, reads, ticks, new_metrics_read_writer, new_totals, run, step, write, read, stat,
  collect,
}
use factom_p2p.Traffic.Conservation.{Accounts, passed, nothing_passed, run-Accounts}

abbrev ops : List Op
ops = writes 3 ∷ reads 5 ∷ ticks ∷ writes 17 ∷ []

bytes_of_ops : (run (new_metrics_read_writer, new_totals) ops).1.total_bytes_sent ≡ 3
unfolding run step write read stat collect new_metrics_read_writer new_totals
bytes_of_ops = refl

run-Accounts_example :
    Accounts (passed nothing_passed ops) (run (new_metrics_read_writer, new_totals) ops)
run-Accounts_example = run-Accounts ops
