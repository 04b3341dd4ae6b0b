-- ===== src/Network/Tests.antt =====
-- A network of the default configuration.
use factom_p2p.Prelude.{
  ℕ, zero, suc, ◌<◌, ◌≡◌, refl, All, replicate, length-replicate, true, false, none, List, [], ◌∷◌,
  arith,
}
use factom_p2p.Net.{no_addresses}
use factom_p2p.NetworkId.{Sha256}
use factom_p2p.Configuration.{default_p2p_configuration}
use factom_p2p.Parcel.{Parcel, type_message}
use factom_p2p.ParcelChannel.{new_channel}
use factom_p2p.PeerStore.{new_peer_store}
use factom_p2p.Dialer.{new_dialer}
use factom_p2p.Seed.{new_seed}
use factom_p2p.Network.{Network, Startup, new_network}
use factom_p2p.Network.Creation.{Makes, new_network-Makes}
use factom_p2p.Network.Life.{Op, runs, stops, sends, operate, expected, Lives, operate-Lives}

-- A hash of 32 zeroes.
zeroes_All : (n : ℕ) → All (λ b. b < 256) (replicate n 0)
zeroes_All zero = tt
zeroes_All (suc n) = (omega arith, zeroes_All n)

abbrev zeroes : Sha256
zeroes = record {
  sum = λ s. replicate 32 0;
  sum_length = λ s. length-replicate {A = ℕ} 32 0;
  sum_bytes = λ s. zeroes_All 32;
}

abbrev startup : Startup
startup = record { source = true; bound = true; random = 7; file = none; now = 100 }

abbrev network : Network
network = record {
  conf = default_p2p_configuration;
  controller = record {
    dialer = new_dialer 5;
    last_persist = 100;
    specials = record { special = []; special_endpoints = [] };
    rounds = record { last_round = 100; rounds = 0 };
    seed = new_seed 5;
    peers = new_peer_store;
    bans = [];
    bootstrap = [];
  };
  instance_id = 7;
  to_network = new_channel 2;
  from_network = new_channel 2;
  stopped = false;
  starts = 0;
}

abbrev parcel : Parcel
parcel = record { ptype = type_message; address = []; payload = 1 ∷ [] }

abbrev ops : List Op
ops = runs ∷ sends parcel ∷ stops ∷ stops ∷ runs ∷ []

expected_of_ops : expected false ops ≡ true ∷ true ∷ true ∷ false ∷ false ∷ []
unfolding expected
expected_of_ops = refl

new_network-Makes_example :
    Makes no_addresses zeroes startup default_p2p_configuration
      (new_network no_addresses zeroes startup default_p2p_configuration)
new_network-Makes_example = new_network-Makes no_addresses zeroes startup default_p2p_configuration

operate-Lives_example : Lives network ops (operate network ops)
operate-Lives_example = operate-Lives network ops refl
