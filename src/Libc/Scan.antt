-- ===== src/Libc/Scan.antt =====
-- `sscanf` with the formats that the source uses, and `strstr`, `strchr`.
use codecrafters_redis_c.Base.{
  ℕ, zero, suc, ◌^◌, ℤ, pos, negsuc, Bytes, [], ◌∷◌, Option, none, some, Bool, true, false, not,
  ◌&&◌, ◌||◌, ltb, ◌==◌, if◌then◌else◌,
}
use codecrafters_redis_c.Outcome.{Outcome, done, undefined}
use codecrafters_redis_c.Libc.Atoi.{signed_numeral, is_digit, skip_space, numeral, negate, is_space}

-- The range of `long long`.
unfoldable pub in_llong : ℤ → Bool
in_llong (pos n) = ltb n (2 ^ 63)
in_llong (negsuc n) = ltb n (2 ^ 63)

-- What follows the leading digits.
unfoldable pub after_digits : Bytes → Bytes
unfolding is_digit
after_digits [] = []
after_digits (c ∷ s) = if is_digit c then after_digits s else c ∷ s

-- The digits behind the sign: a number and the rest, if there is a digit.
unfoldable pub scan_digits : (ℕ → ℤ) → Bytes → Outcome (Option (ℤ × Bytes))
unfolding is_digit numeral after_digits in_llong
scan_digits sign [] = done none
scan_digits sign (c ∷ s) =
    let z = sign (numeral 0 (c ∷ s)) in
    if not (is_digit c)
    then done none
    else if in_llong z
    then done (some (z, after_digits (c ∷ s)))
    else undefined

unfoldable pub scan_sign : Bytes → Outcome (Option (ℤ × Bytes))
unfolding scan_digits negate
scan_sign [] = done none
scan_sign (c ∷ s) =
    if c == b'-'
    then scan_digits negate s
    else if c == b'+'
    then scan_digits pos s
    else scan_digits pos (c ∷ s)

-- %lld: the number, if one was read, and the rest of the text. A number that is no `long long` is
-- undefined.
unfoldable pub scan_llong : Bytes → Outcome (Option (ℤ × Bytes))
unfolding scan_sign skip_space
scan_llong s = scan_sign (skip_space s)

-- What `sscanf(s, "%lld-%lld", &a, &b)` stores; a variable that it does not store is `none`.
pub record Pair : Type 0 where
  pub first : Option ℤ
  pub second : Option ℤ

-- The second number, behind the dash.
unfoldable pub scan_second : ℤ → Bytes → Outcome Pair
scan_second a [] = done (record { first = some a; second = none })
scan_second a (c ∷ s) =
    if c == b'-'
    then elim (scan_llong s) [
      | undefined ↦ undefined
      | done none ↦ done (record { first = some a; second = none })
      | done (some (b, _)) ↦ done (record { first = some a; second = some b })
    ]
    else done (record { first = some a; second = none })

unfoldable pub scan_pair : Bytes → Outcome Pair
unfolding scan_second
scan_pair s = elim (scan_llong s) [
  | undefined ↦ undefined
  | done none ↦ done (record { first = none; second = none })
  | done (some (a, rest)) ↦ scan_second a rest
]

-- %63[^-]: the bytes before a dash, at most `n` of them, and the rest.
unfoldable pub until_dash : ℕ → Bytes → Bytes × Bytes
until_dash zero s = ([], s)
until_dash (suc n) [] = ([], [])
until_dash (suc n) (c ∷ s) =
    let (word, rest) = until_dash n s in if c == b'-' then ([], c ∷ s) else (c ∷ word, rest)

-- %63s behind the white space: the bytes before the next one.
unfoldable pub until_space : ℕ → Bytes → Bytes
unfolding is_space
until_space zero s = []
until_space (suc n) [] = []
until_space (suc n) (c ∷ s) = let word = until_space n s in if is_space c then [] else c ∷ word

-- An empty match stores nothing.
abbrev pub stored : Bytes → Option Bytes
stored [] = none
stored (c ∷ s) = some (c ∷ s)

-- The second word, behind the dash.
unfoldable pub scan_word : Bytes × Bytes → Option Bytes × Option Bytes
unfolding until_space skip_space
scan_word ([], rest) = (none, none)
scan_word (c ∷ word, []) = (some (c ∷ word), none)
scan_word (c ∷ word, d ∷ more) =
    (some (c ∷ word), (if d == b'-' then stored (until_space 63 (skip_space more)) else none))

-- What `sscanf(s, "%63[^-]-%63s", a, b)` stores.
unfoldable pub scan_words : Bytes → Option Bytes × Option Bytes
unfolding until_dash scan_word
scan_words s = scan_word (until_dash 63 s)

abbrev pub starts_with : Bytes → Bytes → Bool
starts_with [] s = true
starts_with (c ∷ t) [] = false
starts_with (c ∷ t) (d ∷ s) = c == d && starts_with t s

-- strstr(s, t) != NULL
unfoldable pub contains : Bytes → Bytes → Bool
contains [] t = starts_with t []
contains (c ∷ s) t = starts_with t (c ∷ s) || contains s t

-- A value that is no `long long` is undefined, as for `atoi`.
unfoldable pub atoll : Bytes → Outcome ℤ
unfolding signed_numeral skip_space in_llong
atoll s = let z = signed_numeral (skip_space s) in if in_llong z then done z else undefined
