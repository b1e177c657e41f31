-- ===== src/Strconv.antt =====
-- Go's package strconv, as far as pkg/flags and pkg/util use it: `FormatInt` and `FormatUint` in a
-- base up to 16, and `ParseInt` at 64 bits, which returns a number beside its error.
pub mod RoundTrip
pub mod Digits
use Prim.Native.Char.{Char, code}
use Prim.Native.String
use csi_gcs.Base.{
  ℕ, zero, suc, ◌+◌, ◌-◌, ◌*◌, ◌/◌, ◌%◌, ◌^◌, String, ◌<>◌, Bool, true, false, not, ◌&&◌, ◌||◌,
  Option, none, some, List, [], ◌∷◌, ltb, leb, ◌=ᵇ◌, ℤ, pos, negsuc, neg, codes, if◌then◌else◌,
}

char_or_zero : String → ℕ → Char
char_or_zero String.[] i = "0"
char_or_zero (String.◌∷◌ c s) zero = c
char_or_zero (String.◌∷◌ c s) (suc i) = char_or_zero s i

-- `digits[d]`
unfoldable pub digit_char : ℕ → Char
unfolding char_or_zero
digit_char d = char_or_zero "0123456789abcdef" d

-- The loop of `formatBits`, with a round for each digit that a 64-bit number can have.
unfoldable pub format_bits : ℕ → ℕ → ℕ → String → String
unfolding digit_char
format_bits zero base n out = out
format_bits (suc rounds) base n out =
    let rest = format_bits rounds base (n / base) (String.◌∷◌ (digit_char (n % base)) out) in
    if ltb n base then String.◌∷◌ (digit_char n) out else rest

-- `strconv.FormatUint(n, base)`
unfoldable pub format_uint : ℕ → ℕ → String
unfolding format_bits
format_uint n base = format_bits 64 base n ""

-- `strconv.FormatInt(i, base)`
unfoldable pub format_int : ℤ → ℕ → String
unfolding format_uint
format_int (pos n) base = format_uint n base
format_int (negsuc n) base = String.◌∷◌ "-" (format_uint (n + 1) base)

pub data NumError : Type 0 where
  err_syntax err_range : NumError

abbrev pub max_u64 : ℕ
max_u64 = 2 ^ 64 - 1

abbrev pub lower : ℕ → ℕ
lower c = if leb b'A' c && leb c b'Z' then c + 32 else c

-- The value of a digit or a letter.
unfoldable pub digit_value : ℕ → Option ℕ
digit_value c =
    if leb b'0' c && leb c b'9'
    then some (c - b'0')
    else if leb b'a' (lower c) && leb (lower c) b'z'
    then some (lower c - b'a' + 10)
    else none

-- The loop of `ParseUint`: the number, the error, and whether an underscore was met.
unfoldable pub scan : ℕ → Bool → List ℕ → ℕ → Bool → ℕ × Option NumError × Bool
scan base base0 [] n underscores = (n, none, underscores)
scan base base0 (c ∷ s) n underscores =
    let skip = scan base base0 s n true in
    let n1 = (n * base) % 2 ^ 64 in
    if base0 && (c =ᵇ b'_') then skip else elim (digit_value c) [
      | none ↦ (0, some err_syntax, underscores)
      | some d ↦
          let n2 = (n1 + d) % 2 ^ 64 in
          let rest = scan base base0 s n2 underscores in
          if leb base d
          then (0, some err_syntax, underscores)
          else if leb (max_u64 / base + 1) n
          then (max_u64, some err_range, underscores)
          else if ltb n2 n1
          then (max_u64, some err_range, underscores)
          else rest
    ]

-- The base that a text with base 0 states, and its digits.
base_prefix : List ℕ → ℕ × List ℕ
base_prefix [] = (10, [])
base_prefix (c ∷ []) = if c =ᵇ b'0' then (8, []) else (10, c ∷ [])
base_prefix (c ∷ p ∷ []) = if c =ᵇ b'0' then (8, p ∷ []) else (10, c ∷ p ∷ [])
base_prefix (c ∷ p ∷ x ∷ s) =
    if c =ᵇ b'0'
    then if lower p =ᵇ b'b'
      then (2, x ∷ s)
      else if lower p =ᵇ b'o'
      then (8, x ∷ s)
      else if lower p =ᵇ b'x'
      then (16, x ∷ s)
      else (8, p ∷ x ∷ s)
    else (10, c ∷ p ∷ x ∷ s)

-- What the last character was: the beginning, a digit or a base prefix, an underscore, other.
pub data Seen : Type 0 where
  start digit underscore other : Seen

is_underscore : Seen → Bool
is_underscore underscore = true
is_underscore _ = false

is_digit : Seen → Bool
is_digit digit = true
is_digit _ = false

is_number : Bool → ℕ → Bool
is_number hex c = (leb b'0' c && leb c b'9') || (hex && (leb b'a' (lower c) && leb (lower c) b'f'))

-- The loop of `underscoreOK`.
underscore_loop : Bool → Seen → List ℕ → Bool
underscore_loop hex i [] = not (is_underscore i)
underscore_loop hex i (c ∷ s) =
    let after_number = underscore_loop hex digit s in
    let after_underscore = is_digit i && underscore_loop hex underscore s in
    let after_other = not (is_underscore i) && underscore_loop hex other s in
    if is_number hex c then after_number else if c =ᵇ b'_' then after_underscore else after_other

unfoldable pub underscore_ok : List ℕ → Bool
unfolding underscore_loop is_underscore is_digit is_number
underscore_ok (c ∷ p ∷ s) =
    if (c =ᵇ b'0') && ((lower p =ᵇ b'b') || (lower p =ᵇ b'o') || (lower p =ᵇ b'x'))
    then underscore_loop (lower p =ᵇ b'x') digit s
    else underscore_loop false start (c ∷ p ∷ s)
underscore_ok s = underscore_loop false start s

-- The test of the underscores behind the loop.
checked : List ℕ → ℕ × Option NumError × Bool → ℕ × Option NumError
checked s (n, some e, underscores) = (n, some e)
checked s (n, none, underscores) =
    if underscores && not (underscore_ok s) then (0, some err_syntax) else (n, none)

-- `strconv.ParseUint(s, base, 64)`
unfoldable pub parse_uint : List ℕ → ℕ → ℕ × Option NumError
unfolding base_prefix checked
parse_uint [] base = (0, some err_syntax)
parse_uint (c ∷ s) zero =
    let (base, t) = base_prefix (c ∷ s) in checked (c ∷ s) (scan base true t 0 false)
parse_uint (c ∷ s) base = checked (c ∷ s) (scan base false (c ∷ s) 0 false)

-- The end of `ParseInt`, from the number without its sign.
signed : Bool → ℕ × Option NumError → ℤ × Option NumError
signed negative (un, some err_syntax) = (pos 0, some err_syntax)
signed false (un, e) =
    if leb (2 ^ 63) un then (pos (2 ^ 63 - 1), some err_range) else (pos un, none)
signed true (un, e) = if ltb (2 ^ 63) un then (neg (2 ^ 63), some err_range) else (neg un, none)

parse_codes : List ℕ → ℕ → ℤ × Option NumError
parse_codes [] base = (pos 0, some err_syntax)
parse_codes (c ∷ s) base =
    if c =ᵇ b'+'
    then signed false (parse_uint s base)
    else if c =ᵇ b'-'
    then signed true (parse_uint s base)
    else signed false (parse_uint (c ∷ s) base)

-- `strconv.ParseInt(s, base, 64)`
unfoldable pub parse_int : String → ℕ → ℤ × Option NumError
unfolding parse_codes signed
parse_int s base = parse_codes (codes s) base
