-- ===== src/Metrics.antt =====
-- The metrics of peers: GetMetrics and the rates of statLoop in peer.go, makeMetrics and runMetrics
-- of controller_run.go, and GetInfo, GetPeerMetrics, Total and Rounds of network.go. A float64 is a
-- parameter, with the sums of whole numbers that it represents exactly.
pub mod Agreement
pub mod Sums
mod Tests
use factom_p2p.Prelude.{
  ℕ, ◌+◌, ◌^◌, ◌≤◌, ◌≡◌, Bool, List, [], ◌∷◌, ◌++◌, GoMap, insert, values, string_eq, if◌then◌else◌,
}
use factom_p2p.Net.{GoString, bytes}
use factom_p2p.Endpoint.{Endpoint}
use factom_p2p.Parcel.{Parcel}
use factom_p2p.ParcelChannel.{Channel}
use factom_p2p.PeerStore as Store
use factom_p2p.PeerStore.{PeerStore}
use factom_p2p.Traffic.{MetricsReadWriter, Totals, collect, stat}
use factom_p2p.Controller.Special.{Specials, is_special}
use factom_p2p.Network.{Network}

-- float64, of a uint64, with the quotient of two ints; whole numbers up to 2^53 are represented,
-- and their sums.
pub record Floats : Type 1 where
  pub F : Type 0
  pub f_set : IsSet F
  pub of_uint64 : ℕ → F
  pub add : F → F → F
  pub quotient : ℕ → ℕ → F
  pub add-exact : (a b : ℕ) → a + b ≤ 2 ^ 53 → add (of_uint64 a) (of_uint64 b) ≡ of_uint64 (a + b)

module _ (fl : Floats) where
  pub record Rates : Type 0 where
    pub bps_down : fl.F
    pub bps_up : fl.F
    pub mps_down : fl.F
    pub mps_up : fl.F

  -- The fields of a peer that GetMetrics reads. `protocol` is what String of its protocol gives,
  -- and `queued` and `capacity` are len and cap of its send channel.
  pub record Meter : Type 0 where
    pub hash : GoString
    pub endpoint : Endpoint
    pub is_incoming : Bool
    pub connected : ℕ
    pub last_receive : ℕ
    pub last_send : ℕ
    pub totals : Totals
    pub rates : Rates
    pub dropped : ℕ
    pub protocol : GoString
    pub queued : ℕ
    pub capacity : ℕ

  -- What the counters make the rates.
  unfoldable pub rates_of : MetricsReadWriter → Rates
  rates_of sc = record {
    bps_down = fl.of_uint64 sc.bytes_read;
    bps_up = fl.of_uint64 sc.bytes_written;
    mps_down = fl.of_uint64 sc.messages_read;
    mps_up = fl.of_uint64 sc.messages_written;
  }

  -- A tick of statLoop.
  unfoldable pub stat_tick : MetricsReadWriter → Meter → MetricsReadWriter × Meter
  unfolding rates_of
  stat_tick sc m =
      let (sc', totals) = stat sc m.totals in
      (sc', record m { totals = totals; rates = rates_of sc })

  pub record PeerMetrics : Type 0 where
    pub hash : GoString
    pub peer_address : GoString
    pub moment_connected : ℕ
    pub peer_quality : ℕ
    pub last_receive : ℕ
    pub last_send : ℕ
    pub messages_sent : ℕ
    pub bytes_sent : ℕ
    pub messages_received : ℕ
    pub bytes_received : ℕ
    pub incoming : Bool
    pub peer_type : GoString
    pub connection_state : GoString
    pub rates : Rates
    pub send_fill_ratio : fl.F
    pub dropped : ℕ

  unfoldable pub send_fill_ratio : Meter → fl.F
  send_fill_ratio m = fl.quotient m.queued m.capacity

  -- PeerQuality is not set.
  unfoldable pub get_metrics : Specials → Meter → PeerMetrics
  unfolding send_fill_ratio
  get_metrics specials p = record {
    hash = p.hash;
    peer_address = p.endpoint.ip;
    moment_connected = p.connected;
    peer_quality = 0;
    last_receive = p.last_receive;
    last_send = p.last_send;
    bytes_received = p.totals.total_bytes_received;
    bytes_sent = p.totals.total_bytes_sent;
    messages_received = p.totals.total_parcels_received;
    messages_sent = p.totals.total_parcels_sent;
    incoming = p.is_incoming;
    peer_type = if is_special specials p.endpoint then bytes "special_config" else bytes "regular";
    connection_state = bytes "v" ++ p.protocol;
    rates = p.rates;
    send_fill_ratio = send_fill_ratio p;
    dropped = p.dropped;
  }

  unfoldable pub make_metrics :
      Specials → List Meter → GoMap GoString PeerMetrics → GoMap GoString PeerMetrics
  unfolding get_metrics
  make_metrics specials [] metrics = metrics
  make_metrics specials (p ∷ peers) metrics =
      make_metrics specials peers (insert p.hash (get_metrics specials p) metrics)

  abbrev pub no_rates : Rates
  no_rates = record {
    bps_down = fl.of_uint64 0;
    bps_up = fl.of_uint64 0;
    mps_down = fl.of_uint64 0;
    mps_up = fl.of_uint64 0;
  }

  abbrev pub add_rates : Rates → Rates → Rates
  add_rates sums r = record {
    bps_down = fl.add sums.bps_down r.bps_down;
    bps_up = fl.add sums.bps_up r.bps_up;
    mps_down = fl.add sums.mps_down r.mps_down;
    mps_up = fl.add sums.mps_up r.mps_up;
  }

  -- The loop over the metrics in runMetrics, and over the peers in GetInfo.
  unfoldable pub sum_rates : Rates → List PeerMetrics → Rates
  sum_rates sums [] = sums
  sum_rates sums (m ∷ ms) = sum_rates (add_rates sums m.rates) ms

  pub record Info : Type 0 where
    pub peers : ℕ
    pub receiving : fl.F
    pub sending : fl.F
    pub download : fl.F
    pub upload : fl.F
    pub dropped : ℕ

  unfoldable pub metrics_of : Specials → List Meter → List PeerMetrics
  unfolding get_metrics
  metrics_of specials [] = []
  metrics_of specials (p ∷ peers) = get_metrics specials p ∷ metrics_of specials peers

  -- `peers` are those of the store's slice. Dropped is not set.
  unfoldable pub get_info : Specials → PeerStore → List Meter → Info
  unfolding sum_rates metrics_of
  get_info specials store peers =
      let sums = sum_rates no_rates (metrics_of specials peers) in
      record {
        peers = Store.total store;
        receiving = sums.mps_down;
        sending = sums.mps_up;
        download = sums.bps_down;
        upload = sums.bps_up;
        dropped = 0;
      }

  pub record Gauges : Type 0 where
    pub byte_rate_down : fl.F
    pub byte_rate_up : fl.F
    pub message_rate_up : fl.F
    pub message_rate_down : fl.F
    pub to_network : fl.F
    pub to_network_ratio : fl.F
    pub from_network : fl.F
    pub from_network_ratio : fl.F

  unfoldable pub fill_ratio : ℕ → ℕ → fl.F
  fill_ratio queued capacity = fl.quotient queued capacity

  -- runMetrics: what the hook gets, and the gauges; the map is ranged over in some order, and the
  -- two channels are given by len and cap.
  unfoldable pub run_metrics :
      (List PeerMetrics → List PeerMetrics)
      → Specials
      → List Meter
      → ℕ × ℕ
      → ℕ × ℕ
      → GoMap GoString PeerMetrics × Gauges
  unfolding make_metrics sum_rates fill_ratio
  run_metrics order specials peers (to_len, to_cap) (from_len, from_cap) =
      let metrics = make_metrics specials peers [] in
      let sums = sum_rates no_rates (order (values metrics)) in
      (
        metrics,
        record {
          byte_rate_down = sums.bps_down;
          byte_rate_up = sums.bps_up;
          message_rate_up = sums.mps_up;
          message_rate_down = sums.mps_down;
          to_network = fl.of_uint64 to_len;
          to_network_ratio = fill_ratio to_len to_cap;
          from_network = fl.of_uint64 from_len;
          from_network_ratio = fill_ratio from_len from_cap;
        },
      )
