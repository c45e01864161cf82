-- ===== src/Rdb/Reader.antt =====
-- `rdb_read_length` and `rdb_read_string` of src/rdb_handler.c. A file is the bytes that are left of
-- it, each below 256; a read that finds too few bytes leaves none.
use codecrafters_redis_c.Base.{
  ℕ, ◌+◌, ◌*◌, ◌/◌, ◌%◌, ◌^◌, ℤ, pos, sub_ℕ, Bytes, [], ◌∷◌, Option, none, some, Bool, true, false,
  length, take, drop, ltb, ◌==◌, if◌then◌else◌,
}
use codecrafters_redis_c.Outcome.{Outcome, done, undefined, ◌>>=◌}
use codecrafters_redis_c.Libc.{print_int}

-- A length of four bytes, whose sum is no `int` from 2^31 on.
unfoldable pub read_long_length : Bytes → Outcome (Option (ℕ × Bool) × Bytes)
read_long_length (a ∷ b ∷ c ∷ d ∷ s) =
    if ltb a 128 then done (some (((a * 256 + b) * 256 + c) * 256 + d, false), s) else undefined
read_long_length _ = done (none, [])

-- The length and whether it stands for an encoded number; `none` for an error.
unfoldable pub read_length : Bytes → Outcome (Option (ℕ × Bool) × Bytes)
unfolding read_long_length
read_length [] = done (none, [])
read_length (b ∷ s) =
    if b / 64 == 0
    then done (some (b % 64, false), s)
    else if b / 64 == 1
    then elim s as (λ _. Outcome (Option (ℕ × Bool) × Bytes)) [
      | [] ↦ done (none, [])
      | n ∷ rest ↦ done (some ((b % 64) * 256 + n, false), rest)
    ]
    else if b / 64 == 2
    then read_long_length s
    else done (some (b % 64, true), s)

-- The number that little-endian bytes spell.
unfoldable pub little_endian : Bytes → ℕ
little_endian [] = 0
little_endian (b ∷ s) = b + 256 * little_endian s

-- The bytes of an encoded number, copied into a 32-bit integer that was zero.
unfoldable pub int_of_bytes : Bytes → ℤ
unfolding little_endian
int_of_bytes s = let n = little_endian s in if ltb n (2 ^ 31) then pos n else sub_ℕ n (2 ^ 32)

-- The size of an encoded number.
abbrev pub number_bytes : ℕ → ℕ
number_bytes len = if len == 0 then 1 else if len == 1 then 2 else 4

-- The bytes before a NUL, which are the C string.
unfoldable pub until_nul : Bytes → Bytes
until_nul [] = []
until_nul (c ∷ s) = if c == 0 then [] else c ∷ until_nul s

unfoldable pub string_behind : Option (ℕ × Bool) → Bytes → Option Bytes × Bytes
unfolding int_of_bytes until_nul
string_behind none s = (none, s)
string_behind (some (len, true)) s =
    let n = number_bytes len in
    if ltb (length s) n then (none, []) else (some (print_int (int_of_bytes (take n s))), drop n s)
string_behind (some (len, false)) s =
    if ltb (length s) len then (none, []) else (some (until_nul (take len s)), drop len s)

-- `none` stands for NULL.
unfoldable pub read_string : Bytes → Outcome (Option Bytes × Bytes)
unfolding read_length string_behind
read_string s = do (len, rest) ← read_length s; done (string_behind len rest)
