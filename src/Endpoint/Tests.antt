-- ===== src/Endpoint/Tests.antt =====
-- The endpoint "host:8088", and texts that hold it.
use factom_p2p.Prelude.{◌≡◌, ◌↔◌, refl, true, none, some, arith}
use factom_p2p.Prelude.Int.{pos}
use factom_p2p.Net.{bytes, no_addresses, atoi, split_host_port}
use factom_p2p.Endpoint.{
  Endpoint, to_string, valid, parse_endpoint, new_endpoint, match_hostname, match_labels,
  is_alphanumeric,
}
use factom_p2p.Endpoint.Parse.{
  HasPort, HasPortNumber, IsHost, parse_endpoint_iff, parse_endpoint-to_string_colon,
  new_endpoint_any_port,
}

abbrev host : Endpoint
host = record { ip = bytes "host"; port = bytes "8088" }

host_valid : valid no_addresses host ≡ true
unfolding valid match_hostname match_labels is_alphanumeric atoi
host_valid = refl

host_port : HasPort (bytes "8088")
unfolding atoi
host_port = (pos 8088, refl, refl)

parse_endpoint_iff_example : (parse_endpoint no_addresses (bytes "host:8088") ≡ some host) ↔ (
    (split_host_port (bytes "host:8088") ≡ some (host.ip, host.port))
    × HasPortNumber host.port
    × IsHost no_addresses host.ip)
parse_endpoint_iff_example = parse_endpoint_iff no_addresses (bytes "host:8088") host

parse_endpoint-to_string_colon_example :
    parse_endpoint no_addresses (to_string (record { ip = bytes "::1"; port = bytes "8088" }))
    ≡ none
parse_endpoint-to_string_colon_example =
    parse_endpoint-to_string_colon no_addresses (record { ip = bytes "::1"; port = bytes "8088" })
      refl refl refl

new_endpoint_any_port_example :
    new_endpoint no_addresses (bytes "host") (bytes "70000")
    ≡ some (record { ip = bytes "host"; port = bytes "70000" })
unfolding match_hostname match_labels is_alphanumeric atoi
new_endpoint_any_port_example =
    new_endpoint_any_port no_addresses (bytes "host") (bytes "70000") (pos 70000) refl (omega arith)
      refl refl refl
