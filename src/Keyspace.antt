-- ===== src/Keyspace.antt =====
-- The hash table of src/utils.c and include/utils.h: the data that it holds, `hash`, and the
-- operations `store_*`. The debugging output of the C functions is left out.

pub mod Hash
pub mod Store
pub mod Laws
pub mod Chains
use codecrafters_redis_c.Base.{ℕ, ℤ, Bytes, List, Option, ◌==◌, if◌then◌else◌}

pub data RedisType : Type 0 where
  type_string type_list type_hash type_zset type_set type_stream : RedisType

pub data TimeFlags : Type 0 where
  ex px exat pxat no_time_flag : TimeFlags

-- `values` is the array behind `char **values`, as long as its allocation; a cell that was never
-- written is `none`.
pub record ArrayList : Type 0 where
  pub values : List (Option Bytes)
  pub size : ℕ
  pub capacity : ℕ

pub record StreamEntry : Type 0 where
  pub id : Bytes
  pub fields : List Bytes

pub record Stream : Type 0 where
  pub entries : List StreamEntry
  pub last_ms : ℤ
  pub last_seq : ℤ
  pub length : ℕ

-- `score` is the bit pattern of a binary64 `double`.
pub record ZSetEntry : Type 0 where
  pub member : Bytes
  pub score : ℕ

-- `entries` is the linked list from `head`.
pub record ZSet : Type 0 where
  pub entries : List ZSetEntry
  pub length : ℕ

-- What `void *value` points to.
pub data Value : Type 0 where
  null : Value
  str : Bytes → Value
  list : ArrayList → Value
  stream : Stream → Value
  zset : ZSet → Value

pub record Entry : Type 0 where
  pub key : Bytes
  pub value : Value
  pub expires_at : ℤ
  pub type : RedisType

-- The chain from an `Entry *`: NULL, an entry with its `next`, or a pointer that was never
-- initialised (`malloc` without a write to `next`).
pub data Chain : Type 0 where
  nil : Chain
  wild : Chain
  node : Entry → Chain → Chain

-- The global `table`, by index.
abbrev pub Table : Type 0
Table = ℕ → Chain

-- table[i] = c
abbrev pub update : Table → ℕ → Chain → Table
update table i c = λ j. if i == j then c else table j
