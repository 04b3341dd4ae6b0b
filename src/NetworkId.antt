-- ===== src/NetworkId.antt =====
-- networkId.go, and `StringToUint32` of util.go over a parameter for sha256.Sum256.
use factom_p2p.Prelude.{ℕ, ◌+◌, ◌*◌, ◌<◌, ◌≡◌, List, ◌∷◌, ◌++◌, length, All, ◌==◌, if◌then◌else◌}
use factom_p2p.Net.{GoString, bytes}

abbrev pub NetworkId : Type 0
NetworkId = ℕ

abbrev pub main_net : NetworkId
main_net = 0xfeedbeef

abbrev pub test_net : NetworkId
test_net = 0xdeadbeef

abbrev pub local_net : NetworkId
local_net = 0xbeaded

-- binary.BigEndian.Uint32 on the first four bytes; a shorter slice panics in Go.
unfoldable pub big_endian_uint32 : List ℕ → ℕ
big_endian_uint32 (a ∷ b ∷ c ∷ d ∷ rest) = ((a * 256 + b) * 256 + c) * 256 + d
big_endian_uint32 _ = 0

-- sha256.Sum256: 32 bytes.
pub record Sha256 : Type 0 where
  pub sum : GoString → List ℕ
  pub sum_length : (s : GoString) → length (sum s) ≡ 32
  pub sum_bytes : (s : GoString) → All (λ b. b < 256) (sum s)

module _ (sha : Sha256) where
  unfoldable pub string_to_uint32 : GoString → ℕ
  unfolding big_endian_uint32
  string_to_uint32 input = big_endian_uint32 (sha.sum input)

  unfoldable pub new_network_id : GoString → NetworkId
  unfolding string_to_uint32
  new_network_id name = string_to_uint32 name

-- fmt's %x of the custom network's number is an argument.
unfoldable pub to_string : (ℕ → GoString) → NetworkId → GoString
to_string hex n =
    if n == main_net
    then bytes "MainNet"
    else if n == test_net
    then bytes "TestNet"
    else if n == local_net
    then bytes "LocalNet"
    else bytes "CustomNet ID: " ++ hex n
