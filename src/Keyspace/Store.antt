-- ===== src/Keyspace/Store.antt =====
-- The operations `store_*` of src/utils.c. `now` is the reading of the clock that they take.
use codecrafters_redis_c.Base.{
  ℕ, ℤ, pos, negsuc, ◌+ℤ◌, scale_ℤ, eqb_ℤ, leb_ℤ, Bytes, str_eq, Option, none, some, if◌then◌else◌,
}
use codecrafters_redis_c.Outcome.{Outcome, done, undefined, ◌>>=◌}
use codecrafters_redis_c.Keyspace.{
  RedisType, type_list, type_stream, type_zset, TimeFlags, ex, px, ArrayList, Stream, ZSet, Value,
  null, list, stream, zset, Entry, Chain, nil, wild, node, Table, update,
}
use codecrafters_redis_c.Keyspace.Hash.{index_of}

-- The walk over a chain up to the first entry with the key.
unfoldable pub find : Bytes → Chain → Outcome (Option Entry)
find key nil = done none
find key wild = undefined
find key (node e next) = if str_eq e.key key then done (some e) else find key next

unfoldable pub store_get_entry : Bytes → Table → Outcome (Option Entry)
store_get_entry key table = do i ← index_of key; find key (table i)

-- The chain after the first entry with the key was overwritten in place.
unfoldable pub overwrite : Bytes → Entry → Chain → Chain
overwrite key new nil = nil
overwrite key new wild = wild
overwrite key new (node e next) =
    if str_eq e.key key then node new next else node e (overwrite key new next)

-- `expires_at` after SET with a time flag: -1 seconds stand for no time flag.
unfoldable pub expiry : TimeFlags → ℤ → ℕ → ℤ
unfolding ◌+ℤ◌
expiry flag seconds now =
    if eqb_ℤ seconds (negsuc 0)
    then pos 0
    else elim flag [ ex ↦ pos now +ℤ scale_ℤ seconds 1000 | px ↦ pos now +ℤ seconds | _ ↦ pos 0 ]

-- The chain after `store_set`, by what the walk found.
unfoldable pub set_chain : Bytes → Entry → Option Entry → Chain → Chain
unfolding overwrite
set_chain key new none c = node new c
set_chain key new (some e) c = overwrite key new c

unfoldable pub store_set : Bytes → Value → TimeFlags → ℤ → RedisType → ℕ → Table → Outcome Table
unfolding expiry set_chain
store_set key value flag seconds type now table = do
  i ← index_of key
  found ← find key (table i)
  let new : Entry = record {
    key = key;
    value = value;
    expires_at = expiry flag seconds now;
    type = type;
  }
  done (update table i (set_chain key new found (table i)))

-- The common body of `store_set_list`, `store_set_stream` and `store_set_zset`: they write to the
-- first entry of the bucket, whatever its key is, and leave `next` of a new entry uninitialised.
unfoldable pub set_head : Entry → Chain → Outcome Chain
set_head new nil = done (node new wild)
set_head new wild = undefined
set_head new (node e next) = done (node new next)

store_set_head : Bytes → Value → RedisType → Table → Outcome Table
unfolding set_head
store_set_head key value type table = do
  i ← index_of key
  c ← set_head (record { key = key; value = value; expires_at = pos 0; type = type }) (table i)
  done (update table i c)

unfoldable pub store_set_list : Bytes → ArrayList → Table → Outcome Table
unfolding store_set_head
store_set_list key l = store_set_head key (list l) type_list

unfoldable pub store_set_stream : Bytes → Stream → Table → Outcome Table
unfolding store_set_head
store_set_stream key s = store_set_head key (stream s) type_stream

unfoldable pub store_set_zset : Bytes → ZSet → Table → Outcome Table
unfolding store_set_head
store_set_zset key z = store_set_head key (zset z) type_zset

-- now >= expires_at, where 0 stands for no expiry
unfoldable pub expired : Entry → ℕ → Outcome Value
expired e now =
    if eqb_ℤ e.expires_at (pos 0)
    then done e.value
    else if leb_ℤ e.expires_at (pos now)
    then done null
    else done e.value

unfoldable pub visible : ℕ → Option Entry → Outcome Value
unfolding expired
visible now none = done null
visible now (some e) = expired e now

unfoldable pub store_get : Bytes → ℕ → Table → Outcome Value
unfolding visible
store_get key now table = do found ← store_get_entry key table; visible now found

-- A write through the pointer that `store_getEntry` returned: a new value for the entry of the key.
unfoldable pub store_put_value : Bytes → Value → Table → Outcome Table
store_put_value key v table = do
  i ← index_of key
  found ← find key (table i)
  elim found [
    | none ↦ undefined
    | some e ↦ done (update table i (overwrite key (record e { value = v }) (table i)))
  ]
