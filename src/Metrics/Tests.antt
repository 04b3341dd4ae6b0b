-- ===== src/Metrics/Tests.antt =====
-- Two peers, with whole numbers for floats.
use mathlib.Core.List.Perm
use native.Mathlib.Nat.{ℕ_set}
use factom_p2p.Prelude.{
  ℕ, ◌+◌, ◌/◌, ◌≡◌, refl, true, List, [], ◌∷◌, values, str_eq, string_eq, arith,
}
use factom_p2p.Net.{GoString, bytes}
use factom_p2p.PeerStore.{PeerStore, new_peer_store}
use factom_p2p.Traffic.{MetricsReadWriter, new_totals}
use factom_p2p.Controller.Special.{Specials}
use factom_p2p.Metrics.{Floats, Meter, rates_of, get_info, run_metrics, metrics_of}
use factom_p2p.Metrics.Sums.{counted, IsExact}
use factom_p2p.Metrics.Agreement.{DistinctHashes, meter_hashes, run_metrics-get_info}

abbrev whole : Floats
whole = record {
  F = ℕ;
  f_set = ℕ_set;
  of_uint64 = λ n. n;
  add = λ a b. a + b;
  quotient = λ a b. a / b;
  add-exact = λ a b h. refl;
}

abbrev counters : MetricsReadWriter
counters = record { messages_written = 1; messages_read = 2; bytes_written = 30; bytes_read = 40 }

abbrev meter : GoString → Meter whole
meter hash = record {
  hash = hash;
  endpoint = record { ip = bytes "a"; port = bytes "1" };
  is_incoming = true;
  connected = 0;
  last_receive = 0;
  last_send = 0;
  totals = new_totals;
  rates = rates_of whole counters;
  dropped = 0;
  protocol = bytes "10";
  queued = 0;
  capacity = 2;
}

abbrev meters : List (Meter whole)
meters = meter (bytes "x") ∷ meter (bytes "y") ∷ []

abbrev specials : Specials
specials = record { special = []; special_endpoints = [] }

abbrev store : PeerStore
store = new_peer_store

meters_distinct : DistinctHashes whole meters
unfolding str_eq
meters_distinct = ((refl, tt), (tt, tt))

meters-IsExact : IsExact (counted (λ h. counters) (meter_hashes whole meters))
meters-IsExact = record {
  messages_written = omega arith;
  messages_read = omega arith;
  bytes_written = omega arith;
  bytes_read = omega arith;
}

run_metrics-get_info_example :
    let info = get_info whole specials store meters in
    let (metrics, gauges) = run_metrics whole (λ ms. ms) specials meters (1, 2) (0, 2) in
    let sums = counted (λ h. counters) (meter_hashes whole meters) in
    (values metrics ≡ metrics_of whole specials meters)
    × (info.receiving ≡ sums.messages_read)
    × (info.sending ≡ sums.messages_written)
    × (info.download ≡ sums.bytes_read)
    × (info.upload ≡ sums.bytes_written)
    × (gauges.message_rate_down ≡ info.receiving)
    × (gauges.message_rate_up ≡ info.sending)
    × (gauges.byte_rate_down ≡ info.download)
    × (gauges.byte_rate_up ≡ info.upload)
run_metrics-get_info_example =
    run_metrics-get_info whole specials (λ h. counters) (λ ms. ms) store meters (1, 2) (0, 2)
      (λ ms. Perm.refl ms) meters_distinct (refl, (refl, tt)) meters-IsExact
