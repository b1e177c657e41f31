-- ===== src/Strconv/RoundTrip.antt =====
-- Every `int64` is read back from its print.
use Prim.Native.Char.{Char, code}
use native.Mathlib.Nat.{
  mod-eq_of_lt, pow-zero, pow-le-pow_left, div-lt_iff_lt-mul, pow-suc, le_trans, div-le_self,
  mod-lt, div-add-mod',
}
use native.Mathlib.Numerals.{add-one}
use csi_gcs.Base.{
  Bool-cases, ap, ◌∙◌, ◌≢◌, inl, inr, ℕ, suc, zero, ◌+◌, ◌*◌, ◌^◌, ◌/◌, ◌%◌, ◌<◌, ◌≤◌, ◌≡◌, refl,
  arith, some, none, Bool, true, false, if◌then◌else◌, List, [], ◌∷◌, ltb, ◌=ᵇ◌, codes, String,
  IsInt64, ℤ, pos, negsuc,
}
use csi_gcs.Strconv.{
  digit_char, format_bits, format_uint, format_int, digit_value, scan, max_u64, parse_int,
  parse_uint, parse_codes, signed,
}

-- The check of one digit.
good_digit : ℕ → Bool
good_digit d = elim (digit_value (code (digit_char d))) [ none ↦ false | some v ↦ v =ᵇ d ]

-- Every digit below a bound.
good_digits : ℕ → Bool
good_digits zero = true
good_digits (suc d) = if good_digit d then good_digits d else false

good_digits_in_base : good_digits 16 ≡ true
unfolding good_digits good_digit digit_value digit_char
good_digits_in_base = refl

good_digit_of_lt : (bound d : ℕ) → d < bound → good_digits bound ≡ true → good_digit d ≡ true
unfolding good_digits
good_digit_of_lt zero d lt good = absurd (omega arith)
good_digit_of_lt (suc last) d lt good = ground (arith, good_digit_of_lt last d)

digit_value-digit_char : (d : ℕ) → d < 16 → digit_value (code (digit_char d)) ≡ some d
unfolding good_digit
digit_value-digit_char d h = ground (arith, good_digit_of_lt 16 d h good_digits_in_base)

below_cutoff : (base n d : ℕ) → 2 ≤ base → n * base + d ≤ max_u64 → n ≤ max_u64 / base
below_cutoff base n d lo fits = grind arith

-- Reading the last digit of a number after the digits before it.
scan_last :
    (base : ℕ) (s : List ℕ) (d n : ℕ)
    → d < base
    → 2 ≤ base
    → base ≤ 16
    → n * base + d ≤ max_u64
    → scan base false (code (digit_char d) ∷ s) n false ≡ scan base false s (n * base + d) false
unfolding scan
scan_last base s d n lt lo hi fits =
    let e : (n * base) % 2 ^ 64 ≡ n * base = mod-eq_of_lt (omega arith) in
    let e' : (n * base + d) % 2 ^ 64 ≡ n * base + d = mod-eq_of_lt (omega arith) in
    let c : n ≤ max_u64 / base = below_cutoff base n d lo fits in
    rw (digit_value-digit_char d (omega arith), e, e') (ground arith)

-- The digits of a number are read back, with what stands behind them still to read.
scan-format_bits :
    (base rounds n : ℕ) (out : String)
    → 2 ≤ base
    → base ≤ 16
    → n ≤ max_u64
    → n < base ^ rounds
    → scan base false (codes (format_bits rounds base n out)) 0 false
      ≡ scan base false (codes out) n false
unfolding format_bits
scan-format_bits base zero n out lo hi fits h =
    let e : n ≡ 0 = omega (arith, pow-zero base) in rw e refl
scan-format_bits base (suc rounds) n out lo hi fits h = elim (Bool-cases (ltb n base)) [
  | inl small ↦ rw small (
      scan_last base (codes out) n 0 (ground arith) lo hi (ground arith)
      ∙ ap (λ k. scan base false (codes out) k false) (grind arith))
  | inr large ↦
      let below : n / base < base ^ rounds =
        (div-lt_iff_lt-mul (omega arith)).1 (rw (← pow-suc) h) in
      rw large (
        scan-format_bits base rounds (n / base) (String.◌∷◌ (digit_char (n % base)) out) lo hi
          (le_trans (div-le_self n base) fits) below
        ∙ scan_last base (codes out) (n % base) (n / base) (mod-lt n (omega arith)) lo hi
            (rw (div-add-mod' n base) fits)
        ∙ ap (λ k. scan base false (codes out) k false) (div-add-mod' n base))
]

format_bits-ne-nil :
    (base rounds n : ℕ) (c : Char) (out : String)
    → codes (format_bits rounds base n (String.◌∷◌ c out)) ≢ []
unfolding format_bits
format_bits-ne-nil base zero n c out h = cc
format_bits-ne-nil base (suc rounds) n c out h =
    ground
      (arith, format_bits-ne-nil base rounds (n / base) (digit_char (n % base)) (String.◌∷◌ c out))

pub format_uint-ne-nil : (base n : ℕ) → codes (format_uint n base) ≢ []
unfolding format_uint
format_uint-ne-nil base n h =
    ground (arith, format_bits-ne-nil base 63 (n / base) (digit_char (n % base)) String.[])

-- A text whose digits are read without an error is read as a number.
parse_uint_of_scan :
    (base : ℕ) (s : List ℕ) (n : ℕ)
    → s ≢ []
    → 2 ≤ base
    → scan base false s 0 false ≡ (n, none, false)
    → parse_uint s base ≡ (n, none)
unfolding parse_uint
parse_uint_of_scan base [] n h lo e = absurd (h refl)
parse_uint_of_scan zero (c ∷ s) n h lo e = absurd (omega arith)
parse_uint_of_scan (suc base) (c ∷ s) n h lo e = rw e refl

scan_no_sign :
    (base c : ℕ) (s : List ℕ) (n : ℕ)
    → scan base false (c ∷ s) 0 false ≡ (n, none, false)
    → ((c =ᵇ b'+') ≡ false) × ((c =ᵇ b'-') ≡ false)
unfolding scan digit_value
scan_no_sign base c s n e = ground arith

-- A text of digits has no sign in front.
parse_codes_of_scan :
    (base : ℕ) (s : List ℕ) (n : ℕ)
    → s ≢ []
    → 2 ≤ base
    → scan base false s 0 false ≡ (n, none, false)
    → parse_codes s base ≡ signed false (n, none)
unfolding parse_codes
parse_codes_of_scan base [] n h lo e = absurd (h refl)
parse_codes_of_scan base (c ∷ s) n h lo e =
    let (not_plus, not_minus) = scan_no_sign base c s n e in
    rw (not_plus, not_minus, parse_uint_of_scan base (c ∷ s) n h lo e) refl

scan-format_uint :
    (base n : ℕ)
    → 2 ≤ base
    → base ≤ 16
    → n ≤ max_u64
    → scan base false (codes (format_uint n base)) 0 false ≡ (n, none, false)
unfolding format_uint scan
scan-format_uint base n lo hi fits =
    scan-format_bits base 64 n "" lo hi fits
      (le_trans (omega arith) (pow-le-pow_left {n = 2} {m = base} lo 64))

-- `ParseInt` reads every `int64` back from its print by `FormatInt`, in each base from 2 to 16.
pub parse_int-format_int :
    (i : ℤ) (base : ℕ)
    → IsInt64 i
    → 2 ≤ base
    → base ≤ 16
    → parse_int (format_int i base) base ≡ (i, none)
unfolding parse_int format_int
parse_int-format_int (pos n) base h lo hi =
    rw
      (parse_codes_of_scan base _ n (format_uint-ne-nil base n) lo
        (scan-format_uint base n lo hi (omega arith)))
      (ground arith)
parse_int-format_int (negsuc n) base h lo hi =
    rw
      (
        parse_uint_of_scan base _ (n + 1) (format_uint-ne-nil base (n + 1)) lo
            (scan-format_uint base (n + 1) lo hi (omega arith)),
        add-one,
      )
      (ground arith)
