-- ===== src/Resp/Lines.antt =====
-- The parser on text that the encoder wrote: a line, a skip over it, an element.
use codecrafters_redis_c.Base.{
  ℕ, suc, ◌+◌, ◌≤◌, ◌<◌, Bytes, crlf, [], ◌∷◌, ◌++◌, ◌≡◌, ◌≢◌, refl, arith, some, length,
  length-append, append_assoc, All, ==_refl,
}
use native.Mathlib.Nat.{add_assoc}
use codecrafters_redis_c.Outcome.{done, ◌>>=◌}
use codecrafters_redis_c.Libc.{print_nat, bulk}
use codecrafters_redis_c.Libc.RoundTrip.{atoi-print_nat, print_nat_bytes, length-print_nat}
use codecrafters_redis_c.Resp.Parse.{
  skip, advance, line, get_line, get_prefix, behind, Partial, store_element, parse_element,
}

-- No carriage return and no NUL, which end a line for `getLine`.
abbrev pub IsLine : Bytes → Type 0
IsLine = All (λ c. (c ≢ 13) × (c ≢ 0))

line-append : (s rest : Bytes) → IsLine s → line (s ++ 13 ∷ rest) ≡ s
unfolding line
line-append [] rest h = refl
line-append (c ∷ s) rest (p, h) = ground (arith, line-append s rest h)

skip-append : (s rest : Bytes) → skip (length s + 2) (some (s ++ (13 ∷ 10 ∷ rest))) ≡ some rest
unfolding skip
skip-append [] rest = refl
skip-append (c ∷ s) rest =
    let e : length (c ∷ s) + 2 ≡ suc (length s + 2) = omega arith in rw e (skip-append s rest)

pub get_line-append :
    (s rest : Bytes) → IsLine s → length s < 256 → get_line (some (s ++ (13 ∷ 10 ∷ rest))) ≡ done s
unfolding get_line
get_line-append s rest h p = rw (line-append s (10 ∷ rest) h) (ground arith)

pub advance-append :
    (s rest : Bytes) (off : ℕ)
    → advance (length s + 2) (record { rest = some (s ++ (13 ∷ 10 ∷ rest)); offset = off })
      ≡ record { rest = some rest; offset = off + (length s + 2) }
unfolding advance
advance-append s rest off = rw (skip-append s rest)

digits-IsLine : (s : Bytes) → All (λ c. (b'0' ≤ c) × (c ≤ b'9')) s → IsLine s
digits-IsLine [] h = tt
digits-IsLine (c ∷ s) (p, h) = ((omega arith, omega arith), digits-IsLine s h)

-- A length line: a prefix and a number.
pub header-IsLine : (n : ℕ) → IsLine (print_nat n)
header-IsLine n = digits-IsLine (print_nat n) (print_nat_bytes n)

bulk-append :
    (s rest : Bytes)
    → bulk s ++ rest ≡ (b'$' ∷ print_nat (length s)) ++ (13 ∷ 10 ∷ (s ++ (13 ∷ 10 ∷ rest)))
unfolding bulk
bulk-append s rest = simp append_assoc

length-bulk :
    (s : Bytes) → length (bulk s) ≡ (length (b'$' ∷ print_nat (length s)) + 2) + (length s + 2)
unfolding bulk
length-bulk s =
    omega (arith, length-append (print_nat (length s)) (crlf ++ (s ++ crlf)), length-append s crlf)

-- An element that the encoder wrote is read back, and the cursor moves behind it.
pub parse_element-bulk :
    (i : ℕ) (p : Partial) (s rest : Bytes) (off : ℕ)
    → IsLine s
    → length s < 256
    → parse_element i p (record { rest = some (bulk s ++ rest); offset = off }) ≡ (do
      p' ← store_element i s p
      done (some (p', record { rest = some rest; offset = off + length (bulk s) })))
unfolding parse_element get_prefix behind
parse_element-bulk i p s rest off h room =
    let header : Bytes = b'$' ∷ print_nat (length s) in
    let short = length-print_nat (length s) in
    let fit : length header < 256 = omega (arith, short) in
    let tail : Bytes = s ++ (13 ∷ 10 ∷ rest) in
    let first =
      get_line-append header tail ((omega arith, omega arith), header-IsLine (length s)) fit in
    let behind_header = advance-append header tail off in
    rw (rw (← bulk-append s rest) at first) (
      rw (rw (← bulk-append s rest) at behind_header, get_line-append s rest h room)
        (rw (atoi-print_nat (length s) (omega arith), ==_refl (length s + 0), advance-append s rest)
          (simp (length-bulk s, add_assoc off (length header + 2) (length s + 2)))))
