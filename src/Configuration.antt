-- ===== src/Configuration.antt =====
-- configuration.go. Durations and limits are natural numbers; durations are in nanoseconds.
pub mod Checks
mod Tests
use factom_p2p.Prelude.{
  ℕ, ◌*◌, ◌+◌, Bool, true, false, Option, none, some, List, [], ◌∷◌, ◌&&◌, ◌||◌, not, ltb, ◌==◌,
  if◌then◌else◌,
}
use factom_p2p.Prelude.Int.{ℤ, pos}
use factom_p2p.Net.{GoString, IpParser, bytes, atoi, is_empty}
use factom_p2p.NetworkId.{NetworkId, main_net}
use factom_p2p.Endpoint.Special.{parse_special}

abbrev pub broadcast : GoString
broadcast = bytes "<BROADCAST>"

abbrev pub full_broadcast : GoString
full_broadcast = bytes "<FULLBORADCAST>"

abbrev pub random_peer_flag : GoString
random_peer_flag = bytes "<RANDOMPEER>"

pub record Configuration : Type 0 where
  pub network : NetworkId
  pub node_id : ℕ
  pub node_name : GoString
  pub peer_request_interval : ℕ
  pub peer_reseed_interval : ℕ
  pub peer_ip_limit_incoming : ℕ
  pub peer_ip_limit_outgoing : ℕ
  pub special : GoString
  pub peer_cache_file : GoString
  pub peer_cache_age : ℕ
  pub peer_share_amount : ℕ
  pub peer_share_timeout : ℕ
  pub round_time : ℕ
  pub target_peers : ℕ
  pub max_peers : ℕ
  pub drop_to : ℕ
  pub min_reseed : ℕ
  pub max_incoming : ℕ
  pub fanout : ℕ
  pub seed_url : GoString
  pub bind_ip : GoString
  pub listen_port : GoString
  pub listen_limit : ℕ
  pub ping_interval : ℕ
  pub redial_interval : ℕ
  pub manual_ban : ℕ
  pub handshake_timeout : ℕ
  pub dial_timeout : ℕ
  pub read_deadline : ℕ
  pub write_deadline : ℕ
  pub protocol_version : ℕ
  pub protocol_version_minimum : ℕ
  pub channel_capacity : ℕ
  pub enable_prometheus : Bool
  pub peer_resend_filter : Bool
  pub peer_resend_buckets : ℤ
  pub peer_resend_interval : ℕ

abbrev second : ℕ
second = 1_000_000_000

abbrev minute : ℕ
minute = 60 * second

abbrev hour : ℕ
hour = 60 * minute

-- A field that the function does not set has its zero value.
unfoldable pub default_p2p_configuration : Configuration
default_p2p_configuration = record {
  network = main_net;
  node_id = 0;
  node_name = bytes "FNode0";
  peer_request_interval = second * 5;
  peer_reseed_interval = hour * 4;
  peer_ip_limit_incoming = 0;
  peer_ip_limit_outgoing = 0;
  special = [];
  peer_cache_file = [];
  peer_cache_age = hour;
  peer_share_amount = 3;
  peer_share_timeout = second * 5;
  round_time = minute * 15;
  target_peers = 32;
  max_peers = 36;
  drop_to = 30;
  min_reseed = 10;
  max_incoming = 36;
  fanout = 8;
  seed_url = [];
  bind_ip = [];
  listen_port = bytes "8108";
  listen_limit = second;
  ping_interval = second * 15;
  redial_interval = minute * 2;
  manual_ban = hour * 24 * 7;
  handshake_timeout = second * 5;
  dial_timeout = second * 5;
  read_deadline = minute * 5;
  write_deadline = minute * 5;
  protocol_version = 10;
  protocol_version_minimum = 9;
  channel_capacity = 1000;
  enable_prometheus = true;
  peer_resend_filter = true;
  peer_resend_buckets = pos 3;
  peer_resend_interval = second * 20;
}

unfoldable pub sanitize : Configuration → Configuration
sanitize c = record c {
  max_incoming = if ltb c.max_peers c.max_incoming then c.max_peers else c.max_incoming;
  drop_to = if ltb c.max_peers c.drop_to then c.max_peers else c.drop_to;
}

pub data ConfigError : Type 0 where
  listen_port_empty listen_port_no_number peer_share_amount_zero : ConfigError
  round_time_unset target_peers_unset fanout_unset : ConfigError
  handshake_timeout_unset dial_timeout_unset : ConfigError
  read_deadline_unset write_deadline_unset : ConfigError
  protocol_version_range protocol_version_minimum_high : ConfigError
  channel_capacity_unset peer_share_timeout_unset special_unparseable : ConfigError

abbrev is_none {ℓ} : {A : Type ℓ} → Option A → Bool
is_none none = true
is_none (some a) = false

-- `none` is Go's nil error.
unfoldable pub check : IpParser → Configuration → Option ConfigError
check net c =
    if is_empty c.listen_port
    then some listen_port_empty
    else if is_none (atoi c.listen_port)
    then some listen_port_no_number
    else if c.peer_share_amount == 0
    then some peer_share_amount_zero
    else if c.round_time == 0
    then some round_time_unset
    else if c.target_peers == 0
    then some target_peers_unset
    else if c.fanout == 0
    then some fanout_unset
    else if c.handshake_timeout == 0
    then some handshake_timeout_unset
    else if c.dial_timeout == 0
    then some dial_timeout_unset
    else if c.read_deadline == 0
    then some read_deadline_unset
    else if c.write_deadline == 0
    then some write_deadline_unset
    else if ltb c.protocol_version 9 || ltb 11 c.protocol_version
    then some protocol_version_range
    else if ltb 11 c.protocol_version_minimum
    then some protocol_version_minimum_high
    else if c.channel_capacity == 0
    then some channel_capacity_unset
    else if c.peer_share_timeout == 0
    then some peer_share_timeout_unset
    else if not (is_empty c.special) && is_none (parse_special net c.special)
    then some special_unparseable
    else none
