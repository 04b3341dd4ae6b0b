-- ===== src/Configuration/Tests.antt =====
-- The default configuration.
use factom_p2p.Prelude.{◌≡◌, refl, none}
use factom_p2p.Net.{no_addresses, atoi}
use factom_p2p.Configuration.{default_p2p_configuration, check}

check_default : check no_addresses default_p2p_configuration ≡ none
unfolding check default_p2p_configuration atoi
check_default = refl
