-- ===== src/Server.antt =====
-- The server's state: `Client`, `RedisConfig` and `Clients_Watch` of include/handler.h, and the
-- globals of src/main.c, src/transaction_handler.c, src/utils.c and src/auth_handler.c.
pub mod Exec
use codecrafters_redis_c.Base.{ℕ, ℤ, Bytes, Bool, List, Option}
use codecrafters_redis_c.Resp.Request.{Request}
use codecrafters_redis_c.Keyspace.{Table}

-- `requests` holds the first `queuedCommands` cells of the array of that name, `watch_keys` the
-- first `watch_keys_size`; `channel_subed` holds all the cells that were written, the NULL ones too.
pub record Client : Type 0 where
  pub fd : ℤ
  pub is_blocked : Bool
  pub is_queued : Bool
  pub is_blpop : Bool
  pub is_subscribed : Bool
  pub is_replica : Bool
  pub is_master : Bool
  pub is_waiting : Bool
  pub repl_offset : ℤ
  pub timeout_at : ℤ
  pub blocked_at : ℤ
  pub waiting_for_key : Option Bytes
  pub min_id : Option Bytes
  pub channel_subed : List (Option Bytes)
  pub channel_count : ℕ
  pub requests : List Request
  pub is_auth : Bool
  pub has_nopass : Bool
  pub watch_keys : List Bytes
  pub is_dirty : Bool

pub record RedisConfig : Type 0 where
  pub port : ℤ
  pub role : Bytes
  pub master_replid : Bytes
  pub master_repl_offset : ℤ
  pub slave_repl_offset : ℤ
  pub captured_master_offset : ℤ
  pub master_fd : ℤ
  pub wanted_replicas : ℤ
  pub wait_client_fd : ℤ
  pub rdb_directory : Bytes
  pub rdb_name : Bytes
  pub append_only : Bytes
  pub appenddirname : Bytes
  pub appendfilename : Bytes
  pub appendfsync : Bytes

-- A `Client *`. The object behind it is in `heap` until it is freed.
abbrev pub Address : Type 0
Address = ℕ

abbrev pub Heap : Type 0
Heap = Address → Option Client

-- `clients` is the global array. `watchers` has for each index the cells of `clientList` up to
-- `clientsSize`, if the record was allocated. `clock` holds the readings of the clock to come.
-- `sent` lists what was sent, and to which file descriptor; `aof` what was appended to the
-- append-only file.
pub record Server : Type 0 where
  pub table : Table
  pub heap : Heap
  pub clients : List (Option Address)
  pub watchers : ℕ → Option (List (Option Address))
  pub config : RedisConfig
  pub default_has_nopass : Bool
  pub default_password : Bytes
  pub clock : ℕ → ℕ
  pub sent : List (ℤ × Bytes)
  pub aof : List Bytes
