-- ===== src/Tests/Rdb.antt =====
-- RDB files on concrete bytes: src/rdb_handler.c.
use codecrafters_redis_c.Base.{pos, codes, Bytes, List, [], ◌∷◌, ◌++◌, some, ◌≡◌, refl, arith}
use codecrafters_redis_c.Outcome.{done, ◌>>=◌}
use codecrafters_redis_c.Rdb.Loading.{load_rdb_into_table}
use codecrafters_redis_c.Rdb.Dump.{dump, store_each, load_rdb_into_table-dump}
use codecrafters_redis_c.Examples.{empty_table}

-- The keys "a" and "b".
abbrev two_keys : List (Bytes × Bytes)
two_keys = (codes "a", codes "x") ∷ (codes "b", codes "y") ∷ []

load_rdb_into_table-dump_example :
    load_rdb_into_table (some (codes "REDIS0011" ++ dump two_keys)) empty_table
    ≡ (do stored ← store_each (pos 0) two_keys empty_table; done (some 2, stored))
load_rdb_into_table-dump_example =
    load_rdb_into_table-dump (codes "REDIS0011") two_keys empty_table refl (
      ((omega arith, tt), omega arith),
      (
        ((omega arith, tt), omega arith),
        (((omega arith, tt), omega arith), (((omega arith, tt), omega arith), tt)),
      ),
    )
