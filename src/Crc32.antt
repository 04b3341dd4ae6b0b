-- ===== src/Crc32.antt =====
-- crc32.Checksum with the table of the Koopman polynomial (`crcTable` of parcel.go): the
-- bit-reflected CRC-32 of hash/crc32.
use Prim.Native.Nat.{bit_xor}
use factom_p2p.Prelude.{
  ℕ, zero, suc, ◌-◌, ◌/◌, ◌%◌, ◌^◌, ◌≡◌, refl, List, [], ◌∷◌, ◌==◌, if◌then◌else◌,
}
use factom_p2p.Net.{bytes}

abbrev koopman : ℕ
koopman = 0xeb31d82e

abbrev all_ones : ℕ
all_ones = 2 ^ 32 - 1

-- `n` rounds of one bit.
shift_bits : ℕ → ℕ → ℕ
shift_bits zero crc = crc
shift_bits (suc n) crc = shift_bits n (if crc % 2 == 1 then bit_xor (crc / 2) koopman else crc / 2)

-- table[byte(crc) ^ b] ^ (crc >> 8)
update : ℕ → List ℕ → ℕ
unfolding shift_bits
update crc [] = crc
update crc (b ∷ bs) = update (bit_xor (shift_bits 8 (bit_xor (crc % 256) b)) (crc / 256)) bs

unfoldable pub checksum : List ℕ → ℕ
unfolding update
checksum payload = bit_xor (update all_ones payload) all_ones

-- The catalogued check value of the polynomial.
checksum_digits : checksum (bytes "123456789") ≡ 0x2d3dd0ae
unfolding checksum
checksum_digits = refl
