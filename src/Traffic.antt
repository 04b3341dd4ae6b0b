-- ===== src/Traffic.antt =====
-- metricsReadWriter.go and statLoop of peer.go: the counters of what passes through a connection,
-- and the totals of a peer. Counters and totals are uint64. An addition to a counter and a swap
-- are atomic; the calls that the underlying connection makes are what they return.
pub mod Conservation
mod Tests
use factom_p2p.Prelude.{ℕ, zero, suc, ◌+◌, ◌%◌, ◌^◌, List, [], ◌∷◌}

-- MetricsReadWriter without the connection that it wraps
pub record MetricsReadWriter : Type 0 where
  pub messages_written : ℕ
  pub messages_read : ℕ
  pub bytes_written : ℕ
  pub bytes_read : ℕ

unfoldable pub new_metrics_read_writer : MetricsReadWriter
new_metrics_read_writer = record {
  messages_written = 0;
  messages_read = 0;
  bytes_written = 0;
  bytes_read = 0;
}

-- atomic.AddUint64
abbrev pub add_uint64 : ℕ → ℕ → ℕ
add_uint64 counter n = (counter + n) % 2 ^ 64

-- Write, where the connection wrote `n` bytes, with an error or not
unfoldable pub write : ℕ → MetricsReadWriter → MetricsReadWriter
write n sc = record sc {
  messages_written = add_uint64 sc.messages_written 1;
  bytes_written = add_uint64 sc.bytes_written n;
}

-- Read, where the connection read `n` bytes
unfoldable pub read : ℕ → MetricsReadWriter → MetricsReadWriter
read n sc = record sc {
  messages_read = add_uint64 sc.messages_read 1;
  bytes_read = add_uint64 sc.bytes_read n;
}

-- Collect: the four values (mw, mr, bw, br), and the counters at 0
unfoldable pub collect : MetricsReadWriter → MetricsReadWriter × ℕ × ℕ × ℕ × ℕ
unfolding new_metrics_read_writer
collect sc = (
  new_metrics_read_writer, sc.messages_written, sc.messages_read, sc.bytes_written, sc.bytes_read,
)

-- The totals of a peer; the rates, which are the same values as floats, are in Metrics.antt.
pub record Totals : Type 0 where
  pub total_parcels_sent : ℕ
  pub total_parcels_received : ℕ
  pub total_bytes_sent : ℕ
  pub total_bytes_received : ℕ

unfoldable pub new_totals : Totals
new_totals = record {
  total_parcels_sent = 0;
  total_parcels_received = 0;
  total_bytes_sent = 0;
  total_bytes_received = 0;
}

-- A tick of statLoop: p.metrics.Collect() and the four additions.
unfoldable pub stat : MetricsReadWriter → Totals → MetricsReadWriter × Totals
unfolding collect
stat sc p =
    let (sc', mw, mr, bw, br) = collect sc in
    (
      sc',
      record {
        total_bytes_received = (p.total_bytes_received + br) % 2 ^ 64;
        total_bytes_sent = (p.total_bytes_sent + bw) % 2 ^ 64;
        total_parcels_received = (p.total_parcels_received + mr) % 2 ^ 64;
        total_parcels_sent = (p.total_parcels_sent + mw) % 2 ^ 64;
      },
    )

-- What happens to a connection.
pub data Op : Type 0 where
  writes reads : ℕ → Op
  ticks : Op

unfoldable pub step : Op → MetricsReadWriter × Totals → MetricsReadWriter × Totals
unfolding write read stat
step (writes n) (sc, p) = (write n sc, p)
step (reads n) (sc, p) = (read n sc, p)
step ticks (sc, p) = stat sc p

unfoldable pub run : MetricsReadWriter × Totals → List Op → MetricsReadWriter × Totals
run s [] = s
run s (op ∷ ops) = run (step op s) ops
