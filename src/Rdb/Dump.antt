-- ===== src/Rdb/Dump.antt =====
-- A file of string values.
use codecrafters_redis_c.Base.{
  ℕ, zero, suc, ◌+◌, ◌<◌, ℤ, pos, negsuc, eqb_ℤ, Bytes, List, [], ◌∷◌, ◌++◌, Option, some, true,
  false, length, length-append, drop, ◌≡◌, refl, sym, ap, ◌∙◌, arith, if◌then◌else◌,
}
use codecrafters_redis_c.Outcome.{Outcome, done, undefined, ◌>>=◌}
use codecrafters_redis_c.Keyspace.{type_string, no_time_flag, str, Table}
use codecrafters_redis_c.Keyspace.Store.{store_set}
use codecrafters_redis_c.Rdb.Loading.{
  expire_head, load_string, load_entry, load_op, skipped, load_rounds, load_rdb_into_table, Loaded,
}
use codecrafters_redis_c.Rdb.Strings.{dumped, IsText, read_string-dumped, drop_front}

-- A file of string values behind its header: for each a type of 0, the key and the value.
abbrev pub dump : List (Bytes × Bytes) → Bytes
dump [] = 255 ∷ []
dump ((key, val) ∷ entries) = 0 ∷ (dumped key ++ (dumped val ++ dump entries))

-- SET of a key with no time limit, and then, if one was read, a time limit for the first entry of the
-- bucket.
abbrev pub store_one : ℤ → Bytes → Bytes → Table → Outcome Table
store_one expiry key val table = do
  set ← store_set key (str val) no_time_flag (negsuc 0) type_string 0 table
  if eqb_ℤ expiry (negsuc 0) then done set else expire_head false key expiry set

abbrev pub store_each : ℤ → List (Bytes × Bytes) → Table → Outcome Table
store_each expiry [] table = done table
store_each expiry ((key, val) ∷ entries) table =
    store_one expiry key val table >>= store_each (negsuc 0) entries

abbrev pub AreTexts : List (Bytes × Bytes) → Type 0
AreTexts [] = Unit
AreTexts ((key, val) ∷ entries) = IsText key × (IsText val × AreTexts entries)

-- The state of the loop behind a value that was loaded.
abbrev one_loaded : Bytes → ℕ → Table → Outcome Loaded
one_loaded rest count table =
    done (record { rest = rest; count = count + 1; table = table; goes_on = true })

timed_run :
    (o : Outcome Table) (expiry : ℤ) (key rest : Bytes) (count : ℕ)
    → (do
      set ← o
      timed ← (if eqb_ℤ expiry (negsuc 0) then done set else expire_head false key expiry set)
      one_loaded rest count timed)
      ≡ (do
        timed ← (do
          set ← o
          if eqb_ℤ expiry (negsuc 0) then done set else expire_head false key expiry set)
        one_loaded rest count timed)
timed_run undefined expiry key rest count = refl
timed_run (done set) expiry key rest count = refl

string_loaded :
    (expiry : ℤ) (key val rest : Bytes) (count : ℕ) (table : Table)
    → IsText val
    → load_string key expiry (dumped val ++ rest) count table
      ≡ (do timed ← store_one expiry key val table; one_loaded rest count timed)
unfolding load_string
string_loaded expiry key val rest count table text = rw (read_string-dumped val rest text) (
    timed_run (store_set key (str val) no_time_flag (negsuc 0) type_string 0 table) expiry key rest
      count)

op_run :
    (expiry : ℤ) (key val rest : Bytes) (count : ℕ) (table : Table)
    → IsText key
    → IsText val
    → load_op 0 expiry (dumped key ++ (dumped val ++ rest)) count table
      ≡ (do timed ← store_one expiry key val table; one_loaded rest count timed)
unfolding load_op load_entry
op_run expiry key val rest count table is_key is_val =
    rw (read_string-dumped key (dumped val ++ rest) is_key)
      (string_loaded expiry key val rest count table is_val)

-- The loop behind one entry.
behind_entry : ℕ → Outcome Loaded → Outcome (ℕ × Table)
behind_entry n o = elim o [
  | undefined ↦ undefined
  | done l ↦ elim l.goes_on [
    | false ↦ done (l.count, l.table)
    | true ↦ load_rounds n (negsuc 0) l.rest l.count l.table
  ]
]

round_run :
    (n : ℕ) (expiry : ℤ) (s : Bytes) (count : ℕ) (table : Table)
    → load_rounds (suc n) expiry (0 ∷ s) count table
      ≡ behind_entry n (load_op 0 expiry s count table)
unfolding load_rounds skipped behind_entry
round_run n expiry s count table = refl

last_run :
    (n : ℕ) (expiry : ℤ) (count : ℕ) (table : Table)
    → load_rounds (suc n) expiry (255 ∷ []) count table ≡ done (count, table)
unfolding load_rounds
last_run n expiry count table = refl

load_rounds-dump :
    (n : ℕ) (entries : List (Bytes × Bytes)) (expiry : ℤ) (count : ℕ) (table : Table)
    → AreTexts entries
    → length entries < n
    → load_rounds n expiry (dump entries) count table
      ≡ (do stored ← store_each expiry entries table; done (count + length entries, stored))
load_rounds-dump zero entries expiry count table texts enough = absurd (omega arith)
load_rounds-dump (suc n) [] expiry count table texts enough =
    last_run n expiry count table ∙ ap (λ k. done (k, table)) (omega arith)
load_rounds-dump (suc n) ((key, val) ∷ entries) expiry count table (is_key, (is_val, texts))
      enough =
    round_run n expiry (dumped key ++ (dumped val ++ dump entries)) count table
    ∙ ap (behind_entry n) (op_run expiry key val (dump entries) count table is_key is_val)
    ∙ next (store_one expiry key val table) (λ timed.
      load_rounds-dump n entries (negsuc 0) (count + 1) timed texts (omega (arith, enough)))
  where
    next :
        (o : Outcome Table)
        → ((timed : Table)
            → load_rounds n (negsuc 0) (dump entries) (count + 1) timed ≡ (do
              stored ← store_each (negsuc 0) entries timed
              done (count + 1 + length entries, stored)))
        → behind_entry n (do timed ← o; one_loaded (dump entries) count timed) ≡ (do
          stored ← (o >>= store_each (negsuc 0) entries)
          done (count + length ((key, val) ∷ entries), stored))
    next undefined ih = unfold behind_entry in refl
    next (done timed) ih =
        unfold behind_entry in
        (ih timed
          ∙ ap (λ k. store_each (negsuc 0) entries timed >>= λ stored. done (k, stored))
              (omega arith))

-- What the function returns of the loop's result.
abbrev reported : Outcome (ℕ × Table) → Outcome (Option ℕ × Table)
reported o = elim o [ undefined ↦ undefined | done (n, t) ↦ done (some n, t) ]

long_dump : (entries : List (Bytes × Bytes)) → length entries < length (dump entries)
long_dump [] = omega arith
long_dump ((key, val) ∷ entries) =
    let a = length-append key (dumped val ++ dump entries) in
    let b = length-append val (dump entries) in omega (arith, a, b, long_dump entries)

-- Loading a file of nine bytes and then, for each of a list of keys with string values, the type 0
-- and both texts behind their lengths, and the end mark, does what storing each value under its key
-- in turn does, and it counts the keys. The texts are C strings of less than 64 bytes. Behind the
-- first key, where the variable of the time limit is still 0, the first entry of the bucket gets
-- that time limit, which is none.
pub load_rdb_into_table-dump :
    (header : Bytes) (entries : List (Bytes × Bytes)) (table : Table)
    → length header ≡ 9
    → AreTexts entries
    → load_rdb_into_table (some (header ++ dump entries)) table
      ≡ (do stored ← store_each (pos 0) entries table; done (some (length entries), stored))
unfolding load_rdb_into_table
load_rdb_into_table-dump header entries table nine texts =
    let behind : drop 9 (header ++ dump entries) ≡ dump entries =
      ap (λ n. drop n (header ++ dump entries)) (sym nine) ∙ drop_front header (dump entries) in
    let file = header ++ dump entries in
    let size = length-append header (dump entries) in
    ap (λ b. reported (load_rounds (suc (length file)) (pos 0) b 0 table)) behind
    ∙ ap reported (
        load_rounds-dump (suc (length file)) entries (pos 0) 0 table texts
          (omega (arith, size, long_dump entries)))
    ∙ counted (store_each (pos 0) entries table)
  where
    counted :
        (o : Outcome Table)
        → reported (do stored ← o; done (0 + length entries, stored))
          ≡ (do stored ← o; done (some (length entries), stored))
    counted undefined = refl
    counted (done stored) = ap (λ k. done (some k, stored)) (omega arith)
