-- ===== src/Libc/Format.antt =====
-- Decimal output: `%zu` and `%d`.
use codecrafters_redis_c.Base.{
  ℕ, zero, suc, ◌+◌, ◌/◌, ◌%◌, ℤ, pos, negsuc, Bytes, [], ◌∷◌, ◌==◌, if◌then◌else◌,
}

-- The digits of `n` before `out`. Each round divides by ten, so `n + 1` rounds are enough.
unfoldable pub digits : ℕ → ℕ → Bytes → Bytes
digits zero n out = out
digits (suc fuel) n out =
    let more = digits fuel (n / 10) ((b'0' + n % 10) ∷ out) in
    if n / 10 == 0 then (b'0' + n % 10) ∷ out else more

unfoldable pub print_nat : ℕ → Bytes
unfolding digits
print_nat n = digits (suc n) n []

unfoldable pub print_int : ℤ → Bytes
unfolding print_nat
print_int (pos n) = print_nat n
print_int (negsuc n) = b'-' ∷ print_nat (suc n)
