-- ===== src/Strconv/Digits.antt =====
-- How a number in base 16 is printed: its digits, and how many they are.
use Prim.Native.Char.{code}
use native.Mathlib.Nat.{pow-suc, pow-zero, div-lt_iff_lt-mul}
use csi_gcs.Base.{
  ℕ, zero, suc, ◌+◌, ◌/◌, ◌%◌, ◌^◌, ◌<◌, ◌≤◌, ◌≡◌, refl, arith, Bool-cases, inl, inr, Bool, true,
  false, ◌&&◌, ◌||◌, leb, ltb, length, codes, String, List, [], ◌∷◌, if◌then◌else◌,
}
use csi_gcs.Strconv.{digit_char, format_bits, format_uint}

-- 0 to 9, and a to f.
abbrev pub is_hex : ℕ → Bool
is_hex c = (leb b'0' c && leb c b'9') || (leb b'a' c && leb c b'f')

abbrev pub all_hex : List ℕ → Bool
all_hex [] = true
all_hex (c ∷ cs) = is_hex c && all_hex cs

-- Every digit below a bound.
hex_digits : ℕ → Bool
hex_digits zero = true
hex_digits (suc d) = if is_hex (code (digit_char d)) then hex_digits d else false

hex_digits_in_base : hex_digits 16 ≡ true
unfolding hex_digits digit_char
hex_digits_in_base = refl

is_hex_of_lt :
    (bound d : ℕ) → d < bound → hex_digits bound ≡ true → is_hex (code (digit_char d)) ≡ true
unfolding hex_digits
is_hex_of_lt zero d lt good = absurd (omega arith)
is_hex_of_lt (suc last) d lt good = ground (arith, is_hex_of_lt last d)

is_hex-digit_char : (d : ℕ) → d < 16 → is_hex (code (digit_char d)) ≡ true
is_hex-digit_char d h = is_hex_of_lt 16 d h hex_digits_in_base

all_hex-format_bits :
    (rounds n : ℕ) (out : String)
    → all_hex (codes out) ≡ true
    → all_hex (codes (format_bits rounds 16 n out)) ≡ true
unfolding format_bits
all_hex-format_bits zero n out h = h
all_hex-format_bits (suc rounds) n out h = elim (Bool-cases (ltb n 16)) [
  | inl small ↦ rw (small, is_hex-digit_char n (ground arith)) h
  | inr large ↦ rw large (
      all_hex-format_bits rounds (n / 16) (String.◌∷◌ (digit_char (n % 16)) out)
        (rw (is_hex-digit_char (n % 16) (omega arith)) h))
]

length-format_bits :
    (rounds k n : ℕ) (out : String)
    → n < 16 ^ suc k
    → length (codes (format_bits rounds 16 n out)) ≤ suc k + length (codes out)
unfolding format_bits
length-format_bits zero k n out h = omega arith
length-format_bits (suc rounds) zero n out h = elim (Bool-cases (ltb n 16)) [
  | inl small ↦ rw small (omega arith)
  | inr large ↦ absurd (ground (arith, pow-suc 16 0, pow-zero 16))
]
length-format_bits (suc rounds) (suc k) n out h =
    let rest =
      length-format_bits rounds k (n / 16) (String.◌∷◌ (digit_char (n % 16)) out)
        ((div-lt_iff_lt-mul (omega arith)).1 (rw (← pow-suc) h)) in
    elim (Bool-cases (ltb n 16)) [
      | inl small ↦ rw small (omega arith)
      | inr large ↦ rw large (omega (arith, rest))
    ]

-- A number of 32 bits has at most 8 digits in base 16.
pub length-format_uint : (n : ℕ) → n < 2 ^ 32 → length (codes (format_uint n 16)) ≤ 8
unfolding format_uint
length-format_uint n h = omega (arith, length-format_bits 64 7 n "" h)

pub all_hex-format_uint : (n : ℕ) → all_hex (codes (format_uint n 16)) ≡ true
unfolding format_uint
all_hex-format_uint n = all_hex-format_bits 64 n "" refl
