-- ===== src/Handshake/Tests.antt =====
-- The handshake of a node whose configured port is out of range.
use factom_p2p.Prelude.{◌≡◌, refl, some}
use factom_p2p.Net.{bytes, no_addresses, atoi}
use factom_p2p.Configuration.{Configuration, default_p2p_configuration}
use factom_p2p.Handshake.{new_handshake, valid, check_tail, port_out_of_range}

abbrev high_port : Configuration
high_port = record default_p2p_configuration { listen_port = bytes "70000" }

high_port_refused :
    valid no_addresses (new_handshake high_port 7) high_port ≡ some port_out_of_range
unfolding valid check_tail new_handshake atoi default_p2p_configuration
high_port_refused = refl
