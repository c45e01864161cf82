-- ===== src/Rdb/Loading.antt =====
-- `load_rdb_into_table` of src/rdb_handler.c.
use codecrafters_redis_c.Base.{
  ℕ, zero, suc, ◌+◌, ◌*◌, ◌^◌, ℤ, pos, negsuc, sub_ℕ, eqb_ℤ, ltb_ℤ, Bytes, [], ◌∷◌, Option, none,
  some, Bool, true, false, length, take, drop, ltb, ◌==◌, if◌then◌else◌,
}
use codecrafters_redis_c.Outcome.{Outcome, done, undefined, ◌>>=◌}
use codecrafters_redis_c.Keyspace.{
  type_string, type_stream, no_time_flag, str, stream, nil, wild, node, Table, update,
}
use codecrafters_redis_c.Keyspace.Hash.{index_of}
use codecrafters_redis_c.Keyspace.Store.{store_set}
use codecrafters_redis_c.Rdb.Reader.{read_length, little_endian, read_string}
use codecrafters_redis_c.Rdb.StreamValue.{read_stream}

-- table[hash(key)]->expires_at = expiry, which is a write to the first entry of the bucket; `must` says
-- that it has to be there.
unfoldable pub expire_head : Bool → Bytes → ℤ → Table → Outcome Table
expire_head must key expiry table = do
  i ← index_of key
  elim (table i) [
    | nil ↦ if must then undefined else done table
    | wild ↦ undefined
    | node e next ↦ done (update table i (node (record e { expires_at = expiry }) next))
  ]

-- What is left of the file, the keys loaded, and the table; `goes_on` is false behind a `break`.
pub record Loaded : Type 0 where
  pub rest : Bytes
  pub count : ℕ
  pub table : Table
  pub goes_on : Bool

-- A string value, if there is one.
unfoldable pub load_string : Bytes → ℤ → Bytes → ℕ → Table → Outcome Loaded
unfolding read_string expire_head
load_string key expiry s count table = do
  (text, rest) ← read_string s
  elim text [
    | none ↦ done (record { rest = rest; count = count; table = table; goes_on = true })
    | some val ↦ do
      set ← store_set key (str val) no_time_flag (negsuc 0) type_string 0 table
      timed ← (if eqb_ℤ expiry (negsuc 0) then done set else expire_head false key expiry set)
      done (record { rest = rest; count = count + 1; table = timed; goes_on = true })
  ]

unfoldable pub load_stream : Bytes → ℤ → Bytes → ℕ → Table → Outcome Loaded
unfolding expire_head
load_stream key expiry s count table = do
  (read, rest) ← read_stream s
  elim read [
    | none ↦ done (record { rest = rest; count = count; table = table; goes_on = false })
    | some value ↦ do
      set ← store_set key (stream value) no_time_flag (negsuc 0) type_stream 0 table
      timed ← (if ltb_ℤ (pos 0) expiry then expire_head true key expiry set else done set)
      done (record { rest = rest; count = count + 1; table = timed; goes_on = true })
  ]

-- A key and its value, of the type `op`.
unfoldable pub load_entry : ℕ → ℤ → Bytes → ℕ → Table → Outcome Loaded
unfolding load_string load_stream read_string
load_entry op expiry s count table = do
  (name, rest) ← read_string s
  elim name [
    | none ↦ done (record { rest = rest; count = count; table = table; goes_on = false })
    | some key ↦
        if op == 0
        then load_string key expiry rest count table
        else if op == 19
        then load_stream key expiry rest count table
        else done (record { rest = rest; count = count; table = table; goes_on = false })
  ]

-- The value type behind the bytes of a time limit.
unfoldable pub load_timed : ℤ → Bytes → ℕ → Table → Outcome Loaded
unfolding load_entry
load_timed expiry [] count table =
    done (record { rest = []; count = count; table = table; goes_on = false })
load_timed expiry (op ∷ s) count table = load_entry op expiry s count table

-- A signed number of eight bytes.
abbrev pub long_of_bytes : Bytes → ℤ
long_of_bytes s = let n = little_endian s in if ltb n (2 ^ 63) then pos n else sub_ℕ n (2 ^ 64)

-- An opcode with what follows it. A time limit with too few bytes leaves its variable as it is,
-- and the file has ended.
unfoldable pub load_op : ℕ → ℤ → Bytes → ℕ → Table → Outcome Loaded
unfolding load_timed load_entry little_endian
load_op op expiry s count table =
    if op == 253
    then (if ltb (length s) 4
        then done (record { rest = []; count = count; table = table; goes_on = false })
        else load_timed (pos (little_endian (take 4 s) * 1000)) (drop 4 s) count table)
    else if op == 252
    then (if ltb (length s) 8
        then done (record { rest = []; count = count; table = table; goes_on = false })
        else load_timed (long_of_bytes (take 8 s)) (drop 8 s) count table)
    else load_entry op expiry s count table

-- What is skipped: a name with its value, the number of a database, the sizes of its tables.
unfoldable pub skipped : ℕ → Bytes → Option (Outcome Bytes)
unfolding read_string read_length
skipped op s =
    if op == 250
    then some (do (_, rest) ← read_string s; (_, rest') ← read_string rest; done rest')
    else if op == 254
    then some (do (_, rest) ← read_length s; done rest)
    else if op == 251
    then some (do (_, rest) ← read_length s; (_, rest') ← read_length rest; done rest')
    else none

-- The loop. Every round reads a byte, so that as many rounds as bytes, and one, are enough.
unfoldable pub load_rounds : ℕ → ℤ → Bytes → ℕ → Table → Outcome (ℕ × Table)
unfolding load_op skipped
load_rounds zero expiry s count table = undefined
load_rounds (suc n) expiry [] count table = done (count, table)
load_rounds (suc n) expiry (op ∷ s) count table =
    if op == 255 then done (count, table) else elim (skipped op s) [
      | some o ↦ elim o [
        | undefined ↦ undefined
        | done rest ↦ load_rounds n expiry rest count table
      ]
      | none ↦ elim (load_op op expiry s count table) [
        | undefined ↦ undefined
        | done l ↦ elim l.goes_on [
          | false ↦ done (l.count, l.table)
          | true ↦ load_rounds n (negsuc 0) l.rest l.count l.table
        ]
      ]
    ]

-- The bytes of the file, if it can be opened, behind its header of nine bytes.
unfoldable pub load_rdb_into_table : Option Bytes → Table → Outcome (Option ℕ × Table)
unfolding load_rounds
load_rdb_into_table none table = done (none, table)
load_rdb_into_table (some file) table =
    elim (load_rounds (suc (length file)) (pos 0) (drop 9 file) 0 table) [
      | undefined ↦ undefined
      | done (count, loaded) ↦ done (some count, loaded)
    ]
