-- ===== src/Examples.antt =====
-- Small servers, tables and clients that the tests run the code on.
use codecrafters_redis_c.Base.{◌==◌, ℤ, pos, codes, [], ◌∷◌, none, some, true, false, if◌then◌else◌}
use codecrafters_redis_c.Keyspace.{
  type_list, type_zset, ArrayList, Value, list, zset, ZSet, Entry, nil, node, Table, RedisType,
}
use codecrafters_redis_c.Libc.Doubles.{Doubles}
use codecrafters_redis_c.Server.{Client, RedisConfig, Server}

abbrev pub empty_table : Table
empty_table = λ i. nil

-- The key "a" has the index 97.
abbrev pub entry_at_a : Value → RedisType → Entry
entry_at_a value type = record { key = codes "a"; value = value; expires_at = pos 0; type = type }

abbrev pub table_with : Value → RedisType → Table
table_with value type = λ i. if 97 == i then node (entry_at_a value type) nil else nil

-- Three cells, the elements "x" and "y" in the first two.
abbrev pub two_elements : ArrayList
two_elements = record {
  values = some (codes "x") ∷ some (codes "y") ∷ none ∷ [];
  size = 2;
  capacity = 3;
}

abbrev pub no_elements : ArrayList
no_elements = record { values = []; size = 0; capacity = 0 }

abbrev pub list_table : Table
list_table = table_with (list two_elements) type_list

abbrev pub idle_client : ℤ → Client
idle_client fd = record {
  fd = fd;
  is_blocked = false;
  is_queued = false;
  is_blpop = false;
  is_subscribed = false;
  is_replica = false;
  is_master = false;
  is_waiting = false;
  repl_offset = pos 0;
  timeout_at = pos 0;
  blocked_at = pos 0;
  waiting_for_key = none;
  min_id = none;
  channel_subed = [];
  channel_count = 0;
  requests = [];
  is_auth = true;
  has_nopass = true;
  watch_keys = [];
  is_dirty = false;
}

abbrev pub default_config : RedisConfig
default_config = record {
  port = pos 6379;
  role = codes "master";
  master_replid = codes "8371b4fb1155b71f4a04d3e1bc3e18c4a990aeeb";
  master_repl_offset = pos 0;
  slave_repl_offset = pos 0;
  captured_master_offset = pos 0;
  master_fd = pos 0;
  wanted_replicas = pos 0;
  wait_client_fd = pos 0;
  rdb_directory = codes "/tmp";
  rdb_name = codes "dump.rdb";
  append_only = codes "no";
  appenddirname = codes "appendonlydir";
  appendfilename = codes "appendonly.aof";
  appendfsync = codes "everysec";
}

-- One client, at the address 1, on the file descriptor 7.
abbrev pub server_with : Table → Client → Server
server_with table c = record {
  table = table;
  heap = λ q. if 1 == q then some c else none;
  clients = none ∷ some 1 ∷ [];
  watchers = λ i. none;
  config = default_config;
  default_has_nopass = true;
  default_password = [];
  clock = λ n. 1000;
  sent = [];
  aof = [];
}

abbrev pub list_server : Server
list_server = server_with list_table (idle_client (pos 7))

abbrev pub empty_server : Server
empty_server = server_with empty_table (idle_client (pos 7))

-- Conversions of numbers that read each text as 1.0.
abbrev pub ones : Doubles
ones = record {
  atof = λ text. 4607182418800017408;
  print_17g = λ d. codes "1";
  milliseconds_later = λ now d. pos now;
}

-- The member "m" with the score 1.0.
abbrev pub one_member : ZSet
one_member = record {
  entries = record { member = codes "m"; score = 4607182418800017408 } ∷ [];
  length = 1;
}

abbrev pub zset_server : Server
zset_server = server_with (table_with (zset one_member) type_zset) (idle_client (pos 7))
