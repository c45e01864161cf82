-- ===== src/Rdb/Strings.antt =====
-- Lengths and strings in the forms of the RDB format.
use codecrafters_redis_c.Base.{
  ℕ, ◌+◌, ◌*◌, ◌/◌, ◌%◌, ◌^◌, ◌<◌, ◌≢◌, Bytes, [], ◌∷◌, ◌++◌, some, false, length, length-append,
  take, drop, All, ltb, ◌≡◌, refl, ap, arith,
}
use codecrafters_redis_c.Outcome.{done}
use codecrafters_redis_c.Rdb.Reader.{
  read_length, read_long_length, until_nul, string_behind, read_string,
}

-- The three forms of the length `n`: in the lower six bits of a byte, in fourteen bits, and in four
-- bytes behind a byte of their own.
abbrev pub short_form : ℕ → Bytes
short_form n = n ∷ []

abbrev pub middle_form : ℕ → Bytes
middle_form n = (64 + n / 256) ∷ n % 256 ∷ []

abbrev pub long_form : ℕ → Bytes
long_form n = 128 ∷ n / 16777216 ∷ n / 65536 % 256 ∷ n / 256 % 256 ∷ n % 256 ∷ []

short_read :
    (n : ℕ) (rest : Bytes)
    → n < 64
    → read_length (short_form n ++ rest) ≡ done (some (n, false), rest)
unfolding read_length
short_read n rest h = ground (arith, h)

middle_read :
    (n : ℕ) (rest : Bytes)
    → n < 16384
    → read_length (middle_form n ++ rest) ≡ done (some (n, false), rest)
unfolding read_length
middle_read n rest h =
    let a : (64 + n / 256) / 64 ≡ 1 = omega (arith, h) in
    let b : (64 + n / 256) % 64 * 256 + n % 256 ≡ n = omega (arith, h) in ground (arith, a, b)

long_read :
    (n : ℕ) (rest : Bytes)
    → n < 2 ^ 31
    → read_length (long_form n ++ rest) ≡ done (some (n, false), rest)
unfolding read_length read_long_length
long_read n rest h =
    let a : n / 16777216 < 128 = omega (arith, h) in
    let b : ((n / 16777216 * 256 + n / 65536 % 256) * 256 + n / 256 % 256) * 256 + n % 256 ≡ n =
      omega (arith, h) in
    ground (arith, a, b)

-- `rdb_read_length` reads a length below 2^31 back from every form of the RDB format that it fits,
-- and leaves what follows it.
pub read_length_lem :
    (n : ℕ) (rest : Bytes)
    → n < 2 ^ 31
    → (n < 64 → read_length (short_form n ++ rest) ≡ done (some (n, false), rest))
      × (n < 16384 → read_length (middle_form n ++ rest) ≡ done (some (n, false), rest))
      × (read_length (long_form n ++ rest) ≡ done (some (n, false), rest))
read_length_lem n rest h = (short_read n rest, middle_read n rest, long_read n rest h)

-- A string of less than 64 bytes behind its length.
abbrev pub dumped : Bytes → Bytes
dumped s = length s ∷ s

-- A text that is a C string.
abbrev pub IsText : Bytes → Type 0
IsText s = All (λ c. c ≢ 0) s × (length s < 64)

take_front : (s rest : Bytes) → take (length s) (s ++ rest) ≡ s
take_front [] rest = refl
take_front (c ∷ s) rest = ap (λ t. c ∷ t) (take_front s rest)

pub drop_front : (s rest : Bytes) → drop (length s) (s ++ rest) ≡ rest
drop_front [] rest = refl
drop_front (c ∷ s) rest = drop_front s rest

no_nul : (s : Bytes) → All (λ c. c ≢ 0) s → until_nul s ≡ s
unfolding until_nul
no_nul [] h = refl
no_nul (c ∷ s) (h, hs) = ground (arith, h, no_nul s hs)

string_read :
    (s rest : Bytes)
    → All (λ c. c ≢ 0) s
    → string_behind (some (length s, false)) (s ++ rest) ≡ (some s, rest)
unfolding string_behind
string_read s rest h =
    let enough : ltb (length (s ++ rest)) (length s) ≡ false =
      ground (arith, length-append s rest) in
    rw (enough, take_front s rest, drop_front s rest, no_nul s h) refl

pub read_string-dumped :
    (s rest : Bytes) → IsText s → read_string (dumped s ++ rest) ≡ done (some s, rest)
unfolding read_string
read_string-dumped s rest (h, short) =
    rw (short_read (length s) (s ++ rest) short) (ap done (string_read s rest h))
