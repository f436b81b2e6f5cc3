-- ===== src/F32.antt =====
-- `f32`, the priority of a link: the IEEE 754 single format, as the 32 bits of a number. Only what
-- the code asks of it is here: `is_finite`, `>` and `==`.
use eafcc_core.Prelude.{
  ℕ, ◌+◌, ◌-◌, ◌/◌, ◌%◌, ◌^◌, ◌≡◌, refl, Bool, true, false, not, ◌&&◌, arith, ltb, ◌==◌,
  if◌then◌else◌,
}

abbrev pub F32 : Type 0
F32 = ℕ

exponent : F32 → ℕ
exponent b = b / 2 ^ 23 % 256

mantissa : F32 → ℕ
mantissa b = b % 2 ^ 23

-- All exponent bits are set in the infinities and in NaN.
unfoldable pub is_finite : F32 → Bool
unfolding exponent
is_finite b = not (exponent b == 255)

unfoldable pub is_nan : F32 → Bool
unfolding exponent mantissa
is_nan b = exponent b == 255 && not (mantissa b == 0)

-- Sign and magnitude, placed on one line: the two zeros are at `2 ^ 31`.
unfoldable pub rank : F32 → ℕ
rank b = if b / 2 ^ 31 == 0 then 2 ^ 31 + b % 2 ^ 31 else 2 ^ 31 - b % 2 ^ 31

-- `a > b`.
unfoldable pub gtb : F32 → F32 → Bool
gtb a b = not (is_nan a) && not (is_nan b) && ltb (rank b) (rank a)

-- `a == b`.
unfoldable pub eqb : F32 → F32 → Bool
eqb a b = not (is_nan a) && not (is_nan b) && rank a == rank b

pub is_nan-is_finite : (b : F32) → is_finite b ≡ true → is_nan b ≡ false
unfolding is_finite is_nan
is_nan-is_finite b h = ground arith

-- 3.0 > -3.0, and -0.0 == 0.0
order_test :
    (gtb 0x40400000 0xc0400000 ≡ true)
    × (eqb 0x80000000 0 ≡ true)
    × (gtb 0x7fc00000 0 ≡ false)
    × (eqb 0x7fc00000 0x7fc00000 ≡ false)
    × (is_finite 0x7f800000 ≡ false)
unfolding gtb eqb is_nan rank is_finite
order_test = (refl, refl, refl, refl, refl)
