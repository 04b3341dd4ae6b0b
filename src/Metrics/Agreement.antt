-- ===== src/Metrics/Agreement.antt =====
-- That GetInfo, the gauges and the hook have the same metrics.
use mathlib.Core.List.Perm
use mathlib.Core.List.{Perm, append_assoc, append-nil}
use factom_p2p.Prelude.{
  ℕ, ◌≡◌, refl, sym, ap, ◌∙◌, false, none, List, [], ◌∷◌, ◌++◌, GoMap, lookup, lookup-insert,
  insert, insert-append, values, values-append, string_eq, str_eq, All, arith,
}
use factom_p2p.Net.{GoString}
use factom_p2p.PeerStore.{PeerStore}
use factom_p2p.Traffic.{MetricsReadWriter}
use factom_p2p.Controller.Special.{Specials}
use factom_p2p.Metrics.{
  Floats, Rates, Meter, rates_of, PeerMetrics, get_metrics, make_metrics, no_rates, sum_rates,
  metrics_of, get_info, run_metrics,
}
use factom_p2p.Metrics.Sums.{counted, IsExact, IsSampled, hashes_of, sum_rates-perm}

module _ (fl : Floats) where
  -- As in a store, no two peers have a hash.
  abbrev pub DistinctHashes : List (Meter fl) → Type 0
  DistinctHashes [] = Unit {0}
  DistinctHashes (p ∷ ps) =
      All (λ (q : Meter fl). str_eq p.hash q.hash ≡ false) ps × DistinctHashes ps

  -- The rates of each peer are those of the counters of its last tick.
  abbrev pub AllSampled : (GoString → MetricsReadWriter) → List (Meter fl) → Type 0
  AllSampled count [] = Unit {0}
  AllSampled count (p ∷ ps) = (p.rates ≡ rates_of fl (count p.hash)) × AllSampled count ps

  abbrev pub meter_hashes : List (Meter fl) → List GoString
  meter_hashes [] = []
  meter_hashes (p ∷ ps) = p.hash ∷ meter_hashes ps

module _ (fl : Floats) (specials : Specials) where
  AllNew : GoMap GoString (PeerMetrics fl) → List (Meter fl) → Type 0
  AllNew m ps = All (λ (p : Meter fl). lookup p.hash m ≡ none) ps

  insert-AllNew :
      (p : Meter fl) (m : GoMap GoString (PeerMetrics fl)) (v : PeerMetrics fl)
      (ps : List (Meter fl))
      → All (λ (q : Meter fl). str_eq p.hash q.hash ≡ false) ps
      → AllNew m ps
      → AllNew (insert p.hash v m) ps
  unfolding AllNew
  insert-AllNew p m v [] d h = tt
  insert-AllNew p m v (q ∷ ps) (e, d) (new, h) =
      (ground (arith, lookup-insert p.hash q.hash v m, e, new), insert-AllNew p m v ps d h)

  values-make_metrics :
      (ps : List (Meter fl)) (m : GoMap GoString (PeerMetrics fl))
      → DistinctHashes fl ps
      → AllNew m ps
      → values (make_metrics fl specials ps m) ≡ values m ++ metrics_of fl specials ps
  unfolding make_metrics metrics_of AllNew values
  values-make_metrics [] m d h = sym (append-nil (values m))
  values-make_metrics (p ∷ ps) m (d, ds) (new, h) =
      let v = get_metrics fl specials p in
      let rest = values-make_metrics ps (insert p.hash v m) ds (insert-AllNew p m v ps d h) in
      rest
      ∙ rw (insert-append p.hash v m new, values-append m ((p.hash, v) ∷ []))
          (append_assoc (values m) (v ∷ []) (metrics_of fl specials ps))

  new_AllNew : (ps : List (Meter fl)) → AllNew [] ps
  unfolding AllNew lookup
  new_AllNew [] = tt
  new_AllNew (p ∷ ps) = (refl, new_AllNew ps)

  metrics_of-IsSampled :
      (count : GoString → MetricsReadWriter) (ps : List (Meter fl))
      → AllSampled fl count ps
      → All (IsSampled fl count) (metrics_of fl specials ps)
  unfolding metrics_of get_metrics
  metrics_of-IsSampled count [] h = tt
  metrics_of-IsSampled count (p ∷ ps) (i, h) = (i, metrics_of-IsSampled count ps h)

  hashes_of-metrics_of :
      (ps : List (Meter fl)) → hashes_of fl (metrics_of fl specials ps) ≡ meter_hashes fl ps
  unfolding metrics_of get_metrics
  hashes_of-metrics_of [] = refl
  hashes_of-metrics_of (p ∷ ps) = ap (λ hs. p.hash ∷ hs) (hashes_of-metrics_of ps)

-- Where no two peers have a hash, their rates are those of their last ticks, and the sums fit 53
-- bits: the hook gets the metrics of all peers; GetInfo's rates are the sums of what the counters
-- had, and the gauges of runMetrics are the same, in whichever order it ranges over its map.
pub run_metrics-get_info :
    (fl : Floats) (specials : Specials) (count : GoString → MetricsReadWriter)
    (order : List (PeerMetrics fl) → List (PeerMetrics fl)) (store : PeerStore)
    (peers : List (Meter fl)) (to from : ℕ × ℕ)
    → ((ms : List (PeerMetrics fl)) → Perm (order ms) ms)
    → DistinctHashes fl peers
    → AllSampled fl count peers
    → IsExact (counted count (meter_hashes fl peers))
    → let info = get_info fl specials store peers in
      let (metrics, gauges) = run_metrics fl order specials peers to from in
      let sums = counted count (meter_hashes fl peers) in
      (values metrics ≡ metrics_of fl specials peers)
      × (info.receiving ≡ fl.of_uint64 sums.messages_read)
      × (info.sending ≡ fl.of_uint64 sums.messages_written)
      × (info.download ≡ fl.of_uint64 sums.bytes_read)
      × (info.upload ≡ fl.of_uint64 sums.bytes_written)
      × (gauges.message_rate_down ≡ info.receiving)
      × (gauges.message_rate_up ≡ info.sending)
      × (gauges.byte_rate_down ≡ info.download)
      × (gauges.byte_rate_up ≡ info.upload)
unfolding get_info run_metrics rates_of values
run_metrics-get_info fl specials count order store peers to from p d h e =
    let ms = metrics_of fl specials peers in
    let found = values-make_metrics fl specials peers [] d (new_AllNew fl specials peers) in
    let exact : IsExact (counted count (hashes_of fl ms)) =
      rw (hashes_of-metrics_of fl specials peers) e in
    let sampled = metrics_of-IsSampled fl specials count peers h in
    let info : (field : Rates fl → fl.F)
        → field (sum_rates fl (no_rates fl) ms)
          ≡ field (rates_of fl (counted count (meter_hashes fl peers))) =
      λ field.
        rw (← hashes_of-metrics_of fl specials peers)
          (sum_rates-perm fl count field ms ms (Perm.refl ms) sampled exact) in
    let gauge : (field : Rates fl → fl.F)
        → field (sum_rates fl (no_rates fl) (order (values (make_metrics fl specials peers []))))
          ≡ field (sum_rates fl (no_rates fl) ms) =
      λ field. rw found (
        sum_rates-perm fl count field (order ms) ms (p ms) sampled exact
        ∙ sym (sum_rates-perm fl count field ms ms (Perm.refl ms) sampled exact)) in
    (
      found,
      info (λ r. r.mps_down),
      info (λ r. r.mps_up),
      info (λ r. r.bps_down),
      info (λ r. r.bps_up),
      gauge (λ r. r.mps_down),
      gauge (λ r. r.mps_up),
      gauge (λ r. r.bps_down),
      gauge (λ r. r.bps_up),
    )
