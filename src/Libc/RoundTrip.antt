-- ===== src/Libc/RoundTrip.antt =====
-- Decimal output is read back by `atoi`; a sequence of prints that fits writes every byte.
use codecrafters_redis_c.Base.{
  ℕ, zero, suc, ◌+◌, ◌-◌, ◌*◌, ◌/◌, ◌%◌, ◌^◌, ◌≤◌, ◌<◌, pos, Bytes, List, [], ◌∷◌, ◌++◌, ◌≡◌, refl,
  ◌∙◌, arith, length, take, All, append_assoc, append-nil, length-append, ◌==◌, inl, inr,
  Bool-cases,
}
use codecrafters_redis_c.Outcome.{done}
use codecrafters_redis_c.Libc.Format.{digits, print_nat}
use codecrafters_redis_c.Libc.Atoi.{skip_space, numeral, signed_numeral, atoi}
use codecrafters_redis_c.Libc.Printing.{print, print_all, sent_bytes, concat}

digit_read : (n : ℕ) (out : Bytes) → numeral (n / 10) ((b'0' + n % 10) ∷ out) ≡ numeral n out
unfolding numeral
digit_read n out = ground arith

-- Reading the digits of `n` gives `n`, whatever follows them.
pub numeral-digits :
    (fuel n : ℕ) (out : Bytes) → n < fuel → numeral 0 (digits fuel n out) ≡ numeral n out
unfolding digits
numeral-digits zero n out h = absurd (omega arith)
numeral-digits (suc fuel) n out h = elim (Bool-cases (n / 10 == 0)) [
  | inl last ↦ rw last (ground (arith, digit_read n out))
  | inr more ↦
      rw more
        (numeral-digits fuel (n / 10) ((b'0' + n % 10) ∷ out) (ground arith) ∙ digit_read n out)
]

-- The digits begin with a digit.
abbrev pub BeginsWithDigit : Bytes → Type 0
BeginsWithDigit [] = ⊥
BeginsWithDigit (c ∷ s) = (b'0' ≤ c) × (c ≤ b'9')

pub digits-begin : (fuel n : ℕ) (out : Bytes) → n < fuel → BeginsWithDigit (digits fuel n out)
unfolding digits
digits-begin zero n out h = absurd (omega arith)
digits-begin (suc fuel) n out h = elim (Bool-cases (n / 10 == 0)) [
  | inl last ↦ rw last (omega arith)
  | inr more ↦ rw more (digits-begin fuel (n / 10) ((b'0' + n % 10) ∷ out) (ground arith))
]

signed_numeral-digit :
    (s : Bytes) → BeginsWithDigit s → signed_numeral (skip_space s) ≡ pos (numeral 0 s)
unfolding signed_numeral skip_space
signed_numeral-digit [] h = absurd h
signed_numeral-digit (c ∷ s) h = ground arith

-- `atoi` of the decimal output of an `int` that is not negative is that number.
pub atoi-print_nat : (n : ℕ) → n < 2 ^ 31 → atoi (print_nat n) ≡ done (pos n)
unfolding atoi print_nat
atoi-print_nat n h =
    rw
      (
        signed_numeral-digit _ (digits-begin (suc n) n [] (omega arith)),
        numeral-digits (suc n) n [] (omega arith),
      )
      (unfold numeral in ground arith)

-- A digit is neither a NUL nor a carriage return.
pub print_nat_bytes : (n : ℕ) → All (λ c. (b'0' ≤ c) × (c ≤ b'9')) (print_nat n)
unfolding print_nat
print_nat_bytes n = digits_bytes (suc n) n [] tt
  where
    digits_bytes :
        (fuel n : ℕ) (out : Bytes)
        → All (λ c. (b'0' ≤ c) × (c ≤ b'9')) out
        → All (λ c. (b'0' ≤ c) × (c ≤ b'9')) (digits fuel n out)
    digits_bytes zero n out h = h
    digits_bytes (suc fuel) n out h = elim (Bool-cases (n / 10 == 0)) [
      | inl last ↦ rw last (omega arith, h)
      | inr more ↦ rw more (digits_bytes fuel (n / 10) ((b'0' + n % 10) ∷ out) (omega arith, h))
    ]

digits_length : (fuel n : ℕ) (out : Bytes) → length (digits fuel n out) ≤ length out + 1 + n / 10
unfolding digits
digits_length zero n out = omega arith
digits_length (suc fuel) n out = ground (arith, digits_length fuel (n / 10) ((b'0' + n % 10) ∷ out))

-- A bound that is far from tight, and enough for the parser's lines.
pub length-print_nat : (n : ℕ) → length (print_nat n) ≤ 1 + n / 10
unfolding print_nat
length-print_nat n = digits_length (suc n) n []

pub take_all {ℓ} : {A : Type ℓ} (n : ℕ) (xs : List A) → length xs ≤ n → take n xs ≡ xs
take_all zero [] h = refl
take_all (suc n) [] h = refl
take_all zero (x ∷ xs) h = absurd (omega arith)
take_all (suc n) (x ∷ xs) h = rw (take_all n xs (omega arith))

print_one :
    (size : ℕ) (t b : Bytes)
    → length b + length t < size
    → print size t (record { bytes = b; offset = length b })
      ≡ done (record { bytes = b ++ t; offset = length (b ++ t) })
unfolding print
print_one size t b h =
    rw (take_all (size - length b - 1) t (omega arith), length-append b t) (ground arith)

-- Prints that fit the buffer write every byte of every text.
pub print_all-fits :
    (size : ℕ) (ts : List Bytes) (b : Bytes)
    → length b + length (concat ts) < size
    → print_all size ts (record { bytes = b; offset = length b })
      ≡ done (record { bytes = b ++ concat ts; offset = length (b ++ concat ts) })
unfolding print_all
print_all-fits size [] b h = rw (append-nil b)
print_all-fits size (t ∷ ts) b h =
    let room = length-append t (concat ts) in
    rw (print_one size t b (omega arith), ← append_assoc b t (concat ts))
      (print_all-fits size ts (b ++ t) (omega (arith, length-append b t)))

-- A text shorter than the buffer is sent whole.
pub sent_bytes-fits :
    (size : ℕ) (b : Bytes)
    → length b < size
    → sent_bytes size (record { bytes = b; offset = length b }) ≡ done b
unfolding sent_bytes
sent_bytes-fits size b h = ground arith

-- 10 to the power of a number of digits
abbrev pub decimal_limit : ℕ → ℕ
decimal_limit zero = 1
decimal_limit (suc k) = 10 * decimal_limit k

digits_fit :
    (k fuel n : ℕ) (out : Bytes)
    → n < decimal_limit (suc k)
    → length (digits fuel n out) ≤ length out + suc k
unfolding digits
digits_fit k zero n out h = omega arith
digits_fit zero (suc fuel) n out h = ground arith
digits_fit (suc k) (suc fuel) n out h = elim (Bool-cases (n / 10 == 0)) [
  | inl last ↦ rw last (omega arith)
  | inr more ↦
      let rest = digits_fit k fuel (n / 10) ((b'0' + n % 10) ∷ out) (omega arith) in
      rw more (omega arith)
]

-- A number below 10 to the power of k, with k positive, has at most k digits.
pub length-print_nat_below : (k n : ℕ) → n < decimal_limit (suc k) → length (print_nat n) ≤ suc k
unfolding print_nat
length-print_nat_below k n h = let fit = digits_fit k (suc n) n [] h in omega arith
