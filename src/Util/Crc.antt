-- ===== src/Util/Crc.antt =====
-- Go's `crc32.ChecksumIEEE`, as package hash/crc32 documents it: the reflected polynomial of IEEE 802.3,
-- with a table of the remainders of a byte.
pub mod Bounds
use Prim.Native.Nat.{bit_xor}
use csi_gcs.Base.{
  ℕ, zero, suc, ◌/◌, ◌%◌, String, ◌≡◌, refl, List, [], ◌∷◌, ◌=ᵇ◌, bytes, if◌then◌else◌,
}

abbrev pub polynomial : ℕ
polynomial = 0xedb88320

abbrev pub all_ones : ℕ
all_ones = 0xffffffff

-- The remainder of `r` after so many shifts by one bit.
unfoldable pub remainder : ℕ → ℕ → ℕ
remainder zero r = r
remainder (suc shifts) r =
    let half = r / 2 in remainder shifts (if r % 2 =ᵇ 0 then half else bit_xor polynomial half)

unfoldable pub table_entry : ℕ → ℕ
table_entry index = remainder 8 index

-- `crc = tab[byte(crc)^v] ^ (crc >> 8)` for each byte `v`
unfoldable pub update : List ℕ → ℕ → ℕ
update [] crc = crc
update (v ∷ vs) crc = update vs (bit_xor (table_entry (bit_xor (crc % 256) v)) (crc / 256))

unfoldable pub checksum_ieee : String → ℕ
unfolding update table_entry remainder
checksum_ieee text = bit_xor all_ones (update (bytes text) all_ones)

check_value : checksum_ieee "123456789" ≡ 0xcbf43926
unfolding checksum_ieee bytes
check_value = refl
