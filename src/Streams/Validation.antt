-- ===== src/Streams/Validation.antt =====
-- What `validate_stream_id` says of an id of two numbers.
use codecrafters_redis_c.Base.{
  ℕ, zero, suc, ◌^◌, ◌<◌, ◌≤◌, Bytes, codes, str_eq, [], ◌∷◌, ◌++◌, Option, none, some, ◌≡◌, refl,
  ap, ◌∙◌, arith, true, false, ◌&&◌, ◌||◌, length, ltb, ◌==◌, All, if◌then◌else◌,
}
use codecrafters_redis_c.Outcome.{done}
use codecrafters_redis_c.Libc.{print_nat, skip_space}
use codecrafters_redis_c.Libc.Atoi.{is_space}
use codecrafters_redis_c.Libc.RoundTrip.{BeginsWithDigit, print_nat_bytes, length-print_nat_below}
use codecrafters_redis_c.Libc.Scan.{
  until_dash, until_space, stored, scan_word, scan_words, contains,
}
use codecrafters_redis_c.Libc.ScanLaws.{scan_pair-print}
use codecrafters_redis_c.Streams.Ids.{
  id_lt, is_bigger, zero_id, small_id, validate_numbers, validate_stream_id,
}
use codecrafters_redis_c.Streams.Posts.{id_text}
use codecrafters_redis_c.Streams.XreadLaws.{print_nat-begins, id_is_no_mark}

abbrev pub IsDigit : ℕ → Type 0
IsDigit c = (b'0' ≤ c) × (c ≤ b'9')

pub contains_char : (c : ℕ) (s t : Bytes) → contains (s ++ c ∷ t) (c ∷ []) ≡ true
unfolding contains
contains_char c [] t = ground arith
contains_char c (d ∷ s) t = ground (arith, contains_char c s t)

pub until_dash-word :
    (k : ℕ) (s t : Bytes)
    → All IsDigit s
    → length s ≤ k
    → until_dash k (s ++ b'-' ∷ t) ≡ (s, b'-' ∷ t)
unfolding until_dash
until_dash-word zero [] t h b = refl
until_dash-word (suc k) [] t h b = refl
until_dash-word zero (c ∷ s) t h b = absurd (omega arith)
until_dash-word (suc k) (c ∷ s) t (d, h) b =
    ground (arith, until_dash-word k s t h (omega arith), d)

until_space-word : (k : ℕ) (s : Bytes) → All IsDigit s → length s ≤ k → until_space k s ≡ s
unfolding until_space is_space
until_space-word zero [] h b = refl
until_space-word (suc k) [] h b = refl
until_space-word zero (c ∷ s) h b = absurd (omega arith)
until_space-word (suc k) (c ∷ s) (d, h) b = ground (arith, until_space-word k s h (omega arith), d)

skip_space-digit : (s : Bytes) → BeginsWithDigit s → skip_space s ≡ s
unfolding skip_space is_space
skip_space-digit [] h = absurd h
skip_space-digit (c ∷ s) h = ground (arith, h)

scan_words-digits :
    (s t : Bytes)
    → BeginsWithDigit s
    → BeginsWithDigit t
    → All IsDigit s
    → All IsDigit t
    → length s ≤ 63
    → length t ≤ 63
    → scan_words (s ++ b'-' ∷ t) ≡ (some s, some t)
unfolding scan_words scan_word
scan_words-digits [] t hs ht ds dt bs bt = absurd hs
scan_words-digits (c ∷ s) [] hs ht ds dt bs bt = absurd ht
scan_words-digits (c ∷ s) (d ∷ t) hs ht ds dt bs bt =
    ap scan_word (until_dash-word 63 (c ∷ s) (d ∷ t) ds bs)
    ∙ ap (λ w. (some (c ∷ s), stored w))
        (ap (until_space 63) (skip_space-digit (d ∷ t) ht) ∙ until_space-word 63 (d ∷ t) dt bt)

pub short : (n : ℕ) → n < 2 ^ 63 → length (print_nat n) ≤ 63
short n h = let b = length-print_nat_below 18 n (omega arith) in omega (arith, b)

pub no_star : (s : Bytes) → BeginsWithDigit s → str_eq s (codes "*") ≡ false
unfolding str_eq
no_star [] h = absurd h
no_star (c ∷ s) h = ground (arith, h)

scan_words-id :
    (ms seq : ℕ)
    → ms < 2 ^ 63
    → seq < 2 ^ 63
    → scan_words (id_text ms seq) ≡ (some (print_nat ms), some (print_nat seq))
scan_words-id ms seq hm hs =
    scan_words-digits (print_nat ms) (print_nat seq) (print_nat-begins ms) (print_nat-begins seq)
      (print_nat_bytes ms) (print_nat_bytes seq) (short ms hm) (short seq hs)

-- What the function should say of the id `ms-seq` for a stream whose last id is `tail_ms-tail_seq`.
abbrev pub verdict : ℕ → ℕ → ℕ → ℕ → Option Bytes
verdict ms seq tail_ms tail_seq =
    if ms == 0 && seq == 0
    then some zero_id
    else if ltb tail_ms ms || (tail_ms == ms && ltb tail_seq seq)
    then none
    else some small_id

numbers_verdict :
    (ms seq tail_ms tail_seq : ℕ)
    → ms < 2 ^ 63
    → seq < 2 ^ 63
    → tail_ms < 2 ^ 63
    → tail_seq < 2 ^ 63
    → validate_numbers (id_text ms seq) (id_text tail_ms tail_seq)
      ≡ done (verdict ms seq tail_ms tail_seq)
unfolding validate_numbers is_bigger id_lt
numbers_verdict ms seq tail_ms tail_seq hm hs htm hts =
    ground (arith, scan_pair-print ms seq hm hs, scan_pair-print tail_ms tail_seq htm hts)

-- For an id of two numbers of type `long long`, and a last id of the same form, `validate_stream_id`
-- returns: it refuses 0-0 with the message on 0-0, accepts an id that is after the last one, and
-- refuses any other with the message on ids that are equal or smaller.
pub validate_stream_id_lem :
    (ms seq tail_ms tail_seq : ℕ)
    → ms < 2 ^ 63
    → seq < 2 ^ 63
    → tail_ms < 2 ^ 63
    → tail_seq < 2 ^ 63
    → validate_stream_id (id_text ms seq) (id_text tail_ms tail_seq)
      ≡ done (verdict ms seq tail_ms tail_seq)
unfolding validate_stream_id
validate_stream_id_lem ms seq tail_ms tail_seq hm hs htm hts = ground (
  arith,
  id_is_no_mark ms seq b'*' (omega arith),
  contains_char b'-' (print_nat ms) (print_nat seq),
  scan_words-id ms seq hm hs,
  no_star (print_nat ms) (print_nat-begins ms),
  no_star (print_nat seq) (print_nat-begins seq),
  numbers_verdict ms seq tail_ms tail_seq hm hs htm hts,
)
