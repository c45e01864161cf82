-- ===== src/Libc/Atoi.antt =====
-- `atoi`: white space, a sign, digits. A value that is no `int` is undefined behaviour.
use codecrafters_redis_c.Base.{
  ℕ, zero, suc, ◌+◌, ◌-◌, ◌*◌, ◌^◌, ℤ, pos, negsuc, Bytes, [], ◌∷◌, Bool, ◌&&◌, ◌||◌, ltb, leb,
  ◌==◌, if◌then◌else◌,
}
use codecrafters_redis_c.Outcome.{Outcome, done, undefined}

unfoldable pub is_digit : ℕ → Bool
is_digit c = leb b'0' c && leb c b'9'

unfoldable pub is_space : ℕ → Bool
is_space c = c == 32 || (leb 9 c && leb c 13)

unfoldable pub skip_space : Bytes → Bytes
unfolding is_space
skip_space [] = []
skip_space (c ∷ s) = if is_space c then skip_space s else c ∷ s

-- The number that the leading digits of a text spell behind `n`.
unfoldable pub numeral : ℕ → Bytes → ℕ
unfolding is_digit
numeral n [] = n
numeral n (c ∷ s) = let rest = numeral (n * 10 + (c - b'0')) s in if is_digit c then rest else n

unfoldable pub negate : ℕ → ℤ
negate n = elim n [ zero ↦ pos 0 | suc m ↦ negsuc m ]

unfoldable pub signed_numeral : Bytes → ℤ
unfolding numeral negate
signed_numeral [] = pos 0
signed_numeral (c ∷ s) =
    if c == b'-'
    then negate (numeral 0 s)
    else if c == b'+'
    then pos (numeral 0 s)
    else pos (numeral 0 (c ∷ s))

-- The range of `int`.
unfoldable pub in_int : ℤ → Bool
in_int (pos n) = ltb n (2 ^ 31)
in_int (negsuc n) = ltb n (2 ^ 31)

unfoldable pub atoi : Bytes → Outcome ℤ
unfolding skip_space signed_numeral in_int
atoi s = let z = signed_numeral (skip_space s) in if in_int z then done z else undefined
