-- ===== src/Libc/Doubles.antt =====
-- C's `double`, as the bit pattern of a binary64 number.
use codecrafters_redis_c.Base.{
  ℕ, ◌*◌, ◌%◌, ◌^◌, ℤ, pos, sub_ℕ, ltb_ℤ, eqb_ℤ, Bytes, Bool, not, ◌&&◌, ltb, if◌then◌else◌,
}

-- The conversions that the C library and the processor do, and the source does not: `atof`, the
-- output `%.17g`, and the conversion of `now + seconds * 1000` to `long long`.
pub record Doubles : Type 0 where
  pub atof : Bytes → ℕ
  pub print_17g : ℕ → Bytes
  pub milliseconds_later : ℕ → ℕ → ℤ

-- The magnitude bits with the sign: of two numbers, none of them a NaN, the order of these is the
-- order of the numbers, and both zeros have 0.
abbrev pub double_key : ℕ → ℤ
double_key d = if ltb d (2 ^ 63) then pos d else sub_ℕ (2 ^ 63) d

-- A NaN has all exponent bits set and a mantissa that is not zero.
abbrev pub is_nan : ℕ → Bool
is_nan d = ltb (2047 * 2 ^ 52) (d % 2 ^ 63)

unfoldable pub double_lt : ℕ → ℕ → Bool
double_lt a b = not (is_nan a) && not (is_nan b) && ltb_ℤ (double_key a) (double_key b)

unfoldable pub double_eq : ℕ → ℕ → Bool
double_eq a b = not (is_nan a) && not (is_nan b) && eqb_ℤ (double_key a) (double_key b)
