-- ===== src/Util/Crc/Bounds.antt =====
-- A checksum has 32 bits.
use Prim.Native.Nat.{bit_xor}
use csi_gcs.Base.{
  ℕ, zero, suc, ◌/◌, ◌%◌, ◌^◌, ◌<◌, arith, Bool-cases, inl, inr, List, [], ◌∷◌, ◌=ᵇ◌, bytes, String,
  bit_xor_lt, AllBelow, bytes-AllBelow,
}
use csi_gcs.Util.Crc.{polynomial, all_ones, remainder, table_entry, update, checksum_ieee}

remainder_lt : (shifts r : ℕ) → r < 2 ^ 32 → remainder shifts r < 2 ^ 32
unfolding remainder
remainder_lt zero r h = h
remainder_lt (suc shifts) r h = elim (Bool-cases (r % 2 =ᵇ 0)) [
  | inl even ↦ rw even (remainder_lt shifts (r / 2) (omega arith))
  | inr odd ↦
      rw odd (remainder_lt shifts _ (bit_xor_lt 32 polynomial (r / 2) (omega arith) (omega arith)))
]

update_lt : (vs : List ℕ) (crc : ℕ) → AllBelow 256 vs → crc < 2 ^ 32 → update vs crc < 2 ^ 32
unfolding update table_entry
update_lt [] crc small h = h
update_lt (v ∷ vs) crc (byte, small) h =
    let index = bit_xor (crc % 256) v in
    let below : index < 2 ^ 32 = bit_xor_lt 32 (crc % 256) v (omega arith) (omega arith) in
    update_lt vs _ small
      (bit_xor_lt 32 (remainder 8 index) (crc / 256) (remainder_lt 8 index below) (omega arith))

pub checksum_ieee_lt : (text : String) → checksum_ieee text < 2 ^ 32
unfolding checksum_ieee
checksum_ieee_lt text =
    bit_xor_lt 32 all_ones _ (omega arith)
      (update_lt (bytes text) all_ones (bytes-AllBelow text) (omega arith))
