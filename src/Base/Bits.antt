-- ===== src/Base/Bits.antt =====
-- Bounds: of an exclusive or, and of the bytes of a text.
use Prim.Native.Nat.{
  ℕ, zero, suc, ◌*◌, ◌/◌, ◌%◌, ◌^◌, ◌<◌, compare, Ordering, bit_xor, bit_xor-bitwise, digits,
  differ,
}
use Prim.Native.Char.{Char, char, code, IsLt}
use Prim.Native.String.{String}
use native.Mathlib.Nat.{pow-suc, pow-zero}
use native.Mathlib.Omega.{arith}
use mathlib.Core.Path.{◌≡◌, refl}
use mathlib.Core.Bool.{Bool, true, false}
use mathlib.Core.List.{List, [], ◌∷◌, ◌++◌}
use mathlib.Core.Logic.{◌⊎◌, inl, inr}
use csi_gcs.Base.Tests.{ltb, Bool-cases}
use csi_gcs.Base.Text.{utf8, bytes}

differ_lt : (a b : ℕ) → a < 2 → b < 2 → differ a b < 2
differ_lt zero b la lb = lb
differ_lt (suc zero) zero la lb = omega arith
differ_lt (suc zero) (suc b) la lb = omega arith
differ_lt (suc (suc a)) b la lb = absurd (omega arith)

digits_lt : (w rounds a b : ℕ) → a < 2 ^ w → b < 2 ^ w → digits (λ b. b) differ rounds a b < 2 ^ w
digits_lt w zero a b la lb = lb
digits_lt w (suc rounds) zero b la lb = lb
digits_lt zero (suc rounds) (suc a) b la lb = absurd (omega (arith, pow-zero 2))
digits_lt (suc w) (suc rounds) (suc a) b la lb =
    let e : 2 ^ suc w ≡ 2 ^ w * 2 = pow-suc 2 w in
    omega (
      arith,
      e,
      digits_lt w rounds (suc a / 2) (b / 2) (omega (arith, e)) (omega (arith, e)),
      differ_lt (suc a % 2) (b % 2) (omega arith) (omega arith),
    )

pub bit_xor_lt : (w a b : ℕ) → a < 2 ^ w → b < 2 ^ w → bit_xor a b < 2 ^ w
bit_xor_lt w a b la lb = rw (bit_xor-bitwise a b) (digits_lt w a a b la lb)

-- Every number of a list is below a bound.
abbrev pub AllBelow : ℕ → List ℕ → Type 0
AllBelow n [] = Unit
AllBelow n (m ∷ ms) = (m < n) × AllBelow n ms

-- What a scalar value is, by three comparisons.
abbrev BothLt : Ordering → Ordering → Type 0
BothLt Ordering.lt o = IsLt o
BothLt Ordering.eq _ = ⊥
BothLt Ordering.gt _ = ⊥

abbrev Scalar : Ordering → Ordering → Ordering → Type 0
Scalar Ordering.lt _ _ = Unit
Scalar Ordering.eq o p = BothLt o p
Scalar Ordering.gt o p = BothLt o p

abbrev is_lt : Ordering → Bool
is_lt o = elim o [ Ordering.lt ↦ true | _ ↦ false ]

is_lt_of_BothLt : (o p : Ordering) → BothLt o p → is_lt p ≡ true
is_lt_of_BothLt Ordering.lt Ordering.lt h = refl
is_lt_of_BothLt Ordering.lt Ordering.eq h = absurd h
is_lt_of_BothLt Ordering.lt Ordering.gt h = absurd h
is_lt_of_BothLt Ordering.eq p h = absurd h
is_lt_of_BothLt Ordering.gt p h = absurd h

is_lt_of_Scalar : (o p q : Ordering) → Scalar o p q → (is_lt o ≡ true) ⊎ (is_lt q ≡ true)
is_lt_of_Scalar Ordering.lt p q h = inl refl
is_lt_of_Scalar Ordering.eq p q h = inr (is_lt_of_BothLt p q h)
is_lt_of_Scalar Ordering.gt p q h = inr (is_lt_of_BothLt p q h)

-- A code point of Unicode.
code_lt : (c : Char) → code c < 1114112
code_lt (char n p) =
    elim (is_lt_of_Scalar (compare n 55296) (compare 57343 n) (compare n 1114112) p) [
      | inl low ↦ let h : ltb n 55296 ≡ true = low in ground arith
      | inr high ↦ let h : ltb n 1114112 ≡ true = high in ground arith
    ]

-- The bytes of a text.
utf8-AllBelow : (c : ℕ) → c < 1114112 → AllBelow 256 (utf8 c)
utf8-AllBelow c h = elim (Bool-cases (ltb c 0x80)) [
  | inl one ↦ rw one (ground arith, tt)
  | inr more ↦ rw more (elim (Bool-cases (ltb c 0x800)) [
    | inl two ↦ rw two (ground arith, (ground arith, tt))
    | inr more ↦ rw more (elim (Bool-cases (ltb c 0x10000)) [
      | inl three ↦ rw three (ground arith, (ground arith, (ground arith, tt)))
      | inr four ↦ rw four (ground arith, (ground arith, (ground arith, (ground arith, tt))))
    ])
  ])
]

AllBelow-append : (n : ℕ) (a b : List ℕ) → AllBelow n a → AllBelow n b → AllBelow n (a ++ b)
AllBelow-append n [] b ha hb = hb
AllBelow-append n (x ∷ a) b (h, ha) hb = (h, AllBelow-append n a b ha hb)

pub bytes-AllBelow : (text : String) → AllBelow 256 (bytes text)
unfolding bytes
bytes-AllBelow String.[] = tt
bytes-AllBelow (String.◌∷◌ c s) =
    AllBelow-append 256 (utf8 (code c)) _ (utf8-AllBelow (code c) (code_lt c)) (bytes-AllBelow s)
