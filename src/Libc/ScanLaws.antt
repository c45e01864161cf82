-- ===== src/Libc/ScanLaws.antt =====
-- `sscanf` reads back what `snprintf` prints with "%lld" and "%lld-%lld".
use codecrafters_redis_c.Base.{
  ℕ, zero, suc, ◌+◌, ◌/◌, ◌%◌, ◌^◌, ◌<◌, ℤ, pos, Bytes, [], ◌∷◌, ◌++◌, Option, some, none, ◌≡◌,
  refl, sym, ap, ◌∙◌, arith, false, ◌==◌, inl, inr, Bool-cases, append-nil,
}
use codecrafters_redis_c.Outcome.{Outcome, done, undefined}
use codecrafters_redis_c.Libc.{print_nat, numeral, is_digit, skip_space}
use codecrafters_redis_c.Libc.Format.{digits}
use codecrafters_redis_c.Libc.RoundTrip.{BeginsWithDigit, digits-begin, numeral-digits}
use codecrafters_redis_c.Libc.Scan.{
  Pair, in_llong, after_digits, scan_digits, scan_sign, scan_llong, scan_second, scan_pair,
}

-- The text does not go on with a digit.
abbrev pub EndsNumber : Bytes → Type 0
EndsNumber [] = Unit
EndsNumber (c ∷ s) = is_digit c ≡ false

digits-append :
    (fuel n : ℕ) (out rest : Bytes) → digits fuel n out ++ rest ≡ digits fuel n (out ++ rest)
unfolding digits
digits-append zero n out rest = refl
digits-append (suc fuel) n out rest =
    let ih = digits-append fuel (n / 10) ((b'0' + n % 10) ∷ out) rest in
    elim (Bool-cases (n / 10 == 0)) [ inl last ↦ rw last refl | inr more ↦ rw more ih ]

after_digits-digits :
    (fuel n : ℕ) (out : Bytes) → after_digits (digits fuel n out) ≡ after_digits out
unfolding digits after_digits is_digit
after_digits-digits zero n out = refl
after_digits-digits (suc fuel) n out =
    let ih = after_digits-digits fuel (n / 10) ((b'0' + n % 10) ∷ out) in
    elim (Bool-cases (n / 10 == 0)) [
      | inl last ↦ rw last (ground arith)
      | inr more ↦ rw more (ih ∙ ground arith)
    ]

after_digits-end : (rest : Bytes) → EndsNumber rest → after_digits rest ≡ rest
unfolding after_digits
after_digits-end [] h = refl
after_digits-end (c ∷ s) h = rw h refl

numeral-end : (n : ℕ) (rest : Bytes) → EndsNumber rest → numeral n rest ≡ n
unfolding numeral
numeral-end n [] h = refl
numeral-end n (c ∷ s) h = rw h refl

scan_llong-digits :
    (s rest : Bytes) (n : ℕ)
    → BeginsWithDigit s
    → numeral 0 s ≡ n
    → after_digits s ≡ rest
    → n < 2 ^ 63
    → scan_llong s ≡ done (some (pos n, rest))
unfolding scan_llong skip_space scan_sign scan_digits is_digit in_llong
scan_llong-digits [] rest n h e f b = absurd h
scan_llong-digits (c ∷ s) rest n h e f b = ground (arith, e, f, b, h)

-- The decimal output of a number is read back, whatever follows that is no digit.
pub scan_llong-print_nat :
    (n : ℕ) (rest : Bytes)
    → n < 2 ^ 63
    → EndsNumber rest
    → scan_llong (print_nat n ++ rest) ≡ done (some (pos n, rest))
unfolding print_nat
scan_llong-print_nat n rest b h = rw (digits-append (suc n) n [] rest) (
    scan_llong-digits (digits (suc n) n rest) rest n (digits-begin (suc n) n rest (omega arith))
      (numeral-digits (suc n) n rest (omega arith) ∙ numeral-end n rest h)
      (after_digits-digits (suc n) n rest ∙ after_digits-end rest h) b)

pub dash_ends : (s : Bytes) → EndsNumber (b'-' ∷ s)
unfolding is_digit
dash_ends s = refl

-- Both numbers of an id are read back from its text.
pub scan_pair-print :
    (ms seq : ℕ)
    → ms < 2 ^ 63
    → seq < 2 ^ 63
    → scan_pair (print_nat ms ++ b'-' ∷ print_nat seq)
      ≡ done (record { first = some (pos ms); second = some (pos seq) })
unfolding scan_pair scan_second
scan_pair-print ms seq a b =
    ap (λ o. read_first o)
      (scan_llong-print_nat ms (b'-' ∷ print_nat seq) a (dash_ends (print_nat seq)))
    ∙ ap (λ o. read_second o)
        (ap scan_llong (sym (append-nil (print_nat seq))) ∙ scan_llong-print_nat seq [] b tt)
  where
    read_first : Outcome (Option (ℤ × Bytes)) → Outcome Pair
    read_first o = elim o [
      | undefined ↦ undefined
      | done none ↦ done (record { first = none; second = none })
      | done (some (x, rest)) ↦ scan_second x rest
    ]

    read_second : Outcome (Option (ℤ × Bytes)) → Outcome Pair
    read_second o = elim o [
      | undefined ↦ undefined
      | done none ↦ done (record { first = some (pos ms); second = none })
      | done (some (y, _)) ↦ done (record { first = some (pos ms); second = some y })
    ]
