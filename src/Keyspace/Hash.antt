-- ===== src/Keyspace/Hash.antt =====
-- `hash` of src/utils.c: an `int` accumulator over the bytes as signed `char`, as on x86-64.
use codecrafters_redis_c.Base.{
  ℕ, ◌≤◌, ◌<◌, ℤ, pos, negsuc, sub_ℕ, ◌+ℤ◌, scale_ℤ, rem_ℤ, Bytes, [], ◌∷◌, ◌≡◌, arith, ltb,
  if◌then◌else◌, All,
}
use codecrafters_redis_c.Outcome.{Outcome, done, undefined}

abbrev pub table_size : ℕ
table_size = 1024

-- The value of a byte as a signed `char`.
pub signed_char : ℕ → ℤ
signed_char c = if ltb c 128 then pos c else sub_ℕ c 256

-- hash = (hash * 31 + *key++) % TABLE_SIZE
pub hash_step : ℤ → ℕ → ℤ
unfolding signed_char ◌+ℤ◌
hash_step h c = rem_ℤ (scale_ℤ h 31 +ℤ signed_char c) table_size

pub hash_from : ℤ → Bytes → ℤ
unfolding hash_step
hash_from h [] = h
hash_from h (c ∷ key) = hash_from (hash_step h c) key

unfoldable pub hash : Bytes → ℤ
unfolding hash_from
hash key = hash_from (pos 0) key

-- An index is used on the array `table` with no test: below zero it is out of its bounds.
unfoldable pub index_of : Bytes → Outcome ℕ
index_of key = elim (hash key) [ pos i ↦ done i | negsuc i ↦ undefined ]

abbrev pub IsAscii : Bytes → Type 0
IsAscii = All (λ c. c < 128)

-- The values that are indices of the table.
abbrev InTable : ℤ → Type 0
InTable (pos i) = i < table_size
InTable (negsuc i) = ⊥

hash_step-InTable : (h : ℤ) (c : ℕ) → InTable h → c < 128 → InTable (hash_step h c)
unfolding hash_step
hash_step-InTable (pos h) c p q = ground arith
hash_step-InTable (negsuc h) c p q = absurd p

hash_from-InTable : (h : ℤ) (key : Bytes) → InTable h → IsAscii key → InTable (hash_from h key)
unfolding hash_from
hash_from-InTable h [] p _ = p
hash_from-InTable h (c ∷ key) p (q, r) =
    hash_from-InTable (hash_step h c) key (hash_step-InTable h c p q) r

InTable-index :
    (h : ℤ)
    → InTable h
    → (i : ℕ) × (elim h [ pos i ↦ done i | negsuc i ↦ undefined ] ≡ done i) × (i < table_size)
InTable-index (pos i) p = (i, ground arith, p)
InTable-index (negsuc i) p = absurd p

-- A key of ASCII bytes always has an index, and it is one of the table's 1024.
pub index_of_ascii :
    (key : Bytes) → IsAscii key → (i : ℕ) × (index_of key ≡ done i) × (i < table_size)
unfolding index_of hash
index_of_ascii key p = InTable-index _ (hash_from-InTable (pos 0) key (omega arith) p)

-- A key of one byte from 128 to 255 indexes the table below its first element.
pub index_of_high_byte : (c : ℕ) → 128 ≤ c → c < 256 → index_of (c ∷ []) ≡ undefined
unfolding index_of hash hash_step
index_of_high_byte c p q = ground arith
