-- ===== src/Traffic/Conservation.antt =====
-- That no byte is lost or counted twice between the counters and the totals.
use factom_p2p.Prelude.{ℕ, suc, ◌+◌, ◌%◌, ◌^◌, ◌≡◌, refl, List, [], ◌∷◌, arith}
use factom_p2p.Traffic.{
  MetricsReadWriter, Totals, Op, writes, reads, ticks, new_metrics_read_writer, new_totals, step,
  run, write, read, stat,
}

-- What was written and read in all: calls of Write and of Read, and bytes of each.
pub record Passed : Type 0 where
  pub writings : ℕ
  pub readings : ℕ
  pub bytes_out : ℕ
  pub bytes_in : ℕ

unfoldable pub passed : Passed → List Op → Passed
passed t [] = t
passed t (writes n ∷ ops) =
    passed (record t { writings = suc t.writings; bytes_out = t.bytes_out + n }) ops
passed t (reads n ∷ ops) =
    passed (record t { readings = suc t.readings; bytes_in = t.bytes_in + n }) ops
passed t (ticks ∷ ops) = passed t ops

-- The totals of the peer and what is still in the counters make up what has passed, modulo 2^64.
pub record Accounts (t : Passed) (s : MetricsReadWriter × Totals) : Type 0 where
  pub parcels_sent : (s.1.total_parcels_sent + s.0.messages_written) % 2 ^ 64 ≡ t.writings % 2 ^ 64
  pub parcels_received :
      (s.1.total_parcels_received + s.0.messages_read) % 2 ^ 64 ≡ t.readings % 2 ^ 64
  pub bytes_sent : (s.1.total_bytes_sent + s.0.bytes_written) % 2 ^ 64 ≡ t.bytes_out % 2 ^ 64
  pub bytes_received : (s.1.total_bytes_received + s.0.bytes_read) % 2 ^ 64 ≡ t.bytes_in % 2 ^ 64

run-Accounts_from :
    (t : Passed) (s : MetricsReadWriter × Totals) (ops : List Op)
    → Accounts t s
    → Accounts (passed t ops) (run s ops)
unfolding run passed step write read stat
run-Accounts_from t s [] h = h
run-Accounts_from t s (writes n ∷ ops) h =
    run-Accounts_from (record t { writings = suc t.writings; bytes_out = t.bytes_out + n })
      (step (writes n) s) ops
      (record {
        parcels_sent = omega (arith, h.parcels_sent);
        parcels_received = h.parcels_received;
        bytes_sent = omega (arith, h.bytes_sent);
        bytes_received = h.bytes_received;
      })
run-Accounts_from t s (reads n ∷ ops) h =
    run-Accounts_from (record t { readings = suc t.readings; bytes_in = t.bytes_in + n })
      (step (reads n) s) ops
      (record {
        parcels_sent = h.parcels_sent;
        parcels_received = omega (arith, h.parcels_received);
        bytes_sent = h.bytes_sent;
        bytes_received = omega (arith, h.bytes_received);
      })
run-Accounts_from t s (ticks ∷ ops) h = run-Accounts_from t (step ticks s) ops (record {
  parcels_sent = omega (arith, h.parcels_sent);
  parcels_received = omega (arith, h.parcels_received);
  bytes_sent = omega (arith, h.bytes_sent);
  bytes_received = omega (arith, h.bytes_received);
})

abbrev pub nothing_passed : Passed
nothing_passed = record { writings = 0; readings = 0; bytes_out = 0; bytes_in = 0 }

-- Over any writes, reads and ticks of a new connection, in any order, the totals of the peer and
-- the counters since the last tick add up, modulo 2^64, to the calls and bytes that passed.
pub run-Accounts :
    (ops : List Op)
    → Accounts (passed nothing_passed ops) (run (new_metrics_read_writer, new_totals) ops)
unfolding new_metrics_read_writer new_totals
run-Accounts ops =
    run-Accounts_from nothing_passed (new_metrics_read_writer, new_totals) ops
      (record {
        parcels_sent = refl;
        parcels_received = refl;
        bytes_sent = refl;
        bytes_received = refl;
      })
