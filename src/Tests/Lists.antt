-- ===== src/Tests/Lists.antt =====
-- The list commands on concrete lists: src/list_handler.c.
use mathlib.Core.List.{reverse}
use codecrafters_redis_c.Base.{
  ℕ, zero, suc, ◌+◌, ◌-◌, ◌<◌, ◌==◌, pos, Bytes, codes, List, [], ◌∷◌, ◌++◌, map, take, drop, none,
  some, ◌≡◌, refl, arith, true, length, get_elem?, leb, str_eq, if◌then◌else◌,
}
use codecrafters_redis_c.Outcome.{done}
use codecrafters_redis_c.Libc.{atoi, bulk, concat, print_nat}
use codecrafters_redis_c.Resp.Command.{Command}
use codecrafters_redis_c.Keyspace.{list, type_list}
use codecrafters_redis_c.Keyspace.Hash.{hash, index_of}
use codecrafters_redis_c.Keyspace.Store.{find, store_get_entry}
use codecrafters_redis_c.Server.{Server, Client}
use codecrafters_redis_c.Server.Exec.{formatted}
use codecrafters_redis_c.Lists.Commands.{waits_for, pair_reply}
use codecrafters_redis_c.Lists.Pushes.{Holds, ListAt}
use codecrafters_redis_c.Lists.Commands.{handle_lpush, handle_rpush}
use codecrafters_redis_c.Lists.PushHandlers.{Pushed, NoneWaits, handle_lpush_old, handle_rpush_old}
use codecrafters_redis_c.Lists.Pops.{handle_lpop, handle_rpop}
use codecrafters_redis_c.Lists.PopHandlers.{
  Popped, array_reply, popped, handle_lpop_many, handle_rpop_many,
}
use codecrafters_redis_c.Lists.Queries.{array_header, abs_int, handle_lrange}
use codecrafters_redis_c.Lists.Ranges.{handle_lrange_total}
use codecrafters_redis_c.Lists.Blocking.{blpop_expired, handle_endblpop}
use codecrafters_redis_c.Lists.Wakes.{Handed, released, handle_rpush_wakes, handle_endblpop_keeps}
use codecrafters_redis_c.Examples.{
  list_table, two_elements, no_elements, entry_at_a, table_with, idle_client, server_with,
  list_server, empty_server,
}

-- The elements "x" and "y".
abbrev elements : List Bytes
elements = codes "x" ∷ codes "y" ∷ []

elements-Holds : Holds two_elements elements
elements-Holds = record { size = refl; room = omega arith; cell = at_cell }
  where
    at_cell :
        (i : ℕ)
        → i < length elements
        → get_elem? two_elements.values i ≡ some (get_elem? elements i)
    at_cell zero h = refl
    at_cell (suc zero) h = refl
    at_cell (suc (suc i)) h = absurd (omega arith)

list-ListAt : ListAt (codes "a") elements list_table
unfolding store_get_entry find index_of hash str_eq
list-ListAt = record {
  entry = entry_at_a (list two_elements) type_list;
  array = two_elements;
  found = refl;
  value = refl;
  holds = elements-Holds;
}

nobody : NoneWaits (codes "a") list_server.heap list_server.clients
unfolding waits_for
nobody = ((idle_client (pos 7), refl, refl), tt)

handle_lpush_old_example :
    Pushed
      (codes "a")
      (handle_lpush
        (record { command = Command.lpush; args = codes "a" ∷ codes "u" ∷ codes "v" ∷ [] })
        (pos 7))
      (pos 7)
      (reverse (codes "u" ∷ codes "v" ∷ []) ++ elements)
      list_server
handle_lpush_old_example =
    handle_lpush_old Command.lpush (codes "a") (codes "u") (codes "v" ∷ []) elements (pos 7)
      list_server list-ListAt

nothing_at_a : store_get_entry (codes "a") empty_server.table ≡ done none
unfolding store_get_entry find index_of hash
nothing_at_a = refl

handle_rpush_old_example :
    Pushed
      (codes "a")
      (handle_rpush (record { command = Command.rpush; args = codes "a" ∷ codes "u" ∷ [] }) (pos 7))
      (pos 7)
      (elements ++ codes "u" ∷ [])
      list_server
handle_rpush_old_example =
    handle_rpush_old Command.rpush (codes "a") (codes "u") [] elements (pos 7) list_server
      list-ListAt nobody

atoi_1 : atoi (codes "1") ≡ done (pos 1)
unfolding atoi
atoi_1 = refl

atoi_0 : atoi (codes "0") ≡ done (pos 0)
unfolding atoi
atoi_0 = refl

atoi_9 : atoi (codes "9") ≡ done (pos 9)
unfolding atoi
atoi_9 = refl

two_popped_fit : length (array_reply (take (popped 9 (length elements)) elements)) < 2048
unfolding print_nat bulk
two_popped_fit = omega arith

handle_lpop_many_example :
    Popped
      (codes "a")
      (handle_lpop (record { command = Command.lpop; args = codes "a" ∷ codes "9" ∷ [] }) (pos 7))
      (pos 7)
      (array_reply (take (popped 9 (length elements)) elements))
      (drop (popped 9 (length elements)) elements)
      list_server
handle_lpop_many_example =
    handle_lpop_many Command.lpop (codes "a") (codes "9") 9 elements (pos 7) list_server list-ListAt
      atoi_9 (omega arith) (omega arith) two_popped_fit

one_popped_fits :
    length (
      array_reply (
        take
          (popped 1 (length elements))
          (drop (length elements - popped 1 (length elements)) elements)))
    < 2048
unfolding print_nat bulk
one_popped_fits = omega arith

handle_rpop_many_example :
    Popped
      (codes "a")
      (handle_rpop (record { command = Command.rpop; args = codes "a" ∷ codes "1" ∷ [] }) (pos 7))
      (pos 7)
      (array_reply (
        take
          (popped 1 (length elements))
          (drop (length elements - popped 1 (length elements)) elements)))
      (take (length elements - popped 1 (length elements)) elements)
      list_server
handle_rpop_many_example =
    handle_rpop_many Command.rpop (codes "a") (codes "1") 1 elements (pos 7) list_server list-ListAt
      atoi_1 (omega arith) (omega arith) one_popped_fits

handle_lrange_total_example :
    (reply : Bytes) × (handle_lrange
        (record { command = Command.lrange; args = codes "a" ∷ codes "0" ∷ codes "9" ∷ [] })
        (pos 7)
        list_server
      ≡ done (tt, record list_server { sent = list_server.sent ++ (pos 7, reply) ∷ [] }))
unfolding abs_int
handle_lrange_total_example =
    handle_lrange_total Command.lrange (codes "a") (codes "0") (codes "9") (pos 0) (pos 9) 0 9
      elements (pos 7) list_server list-ListAt atoi_0 atoi_9 refl refl

range_fits :
    let n : ℕ = (if leb (length elements) 1 then length elements - 1 else 1) + 1 - 0 in
    length (array_header n ++ concat (map bulk (take n (drop 0 elements)))) < 2048
unfolding print_nat bulk
range_fits = omega arith

-- A client that waits for "a" in BLPOP since the time 400, until 900.
abbrev waiting : Client
waiting = record (idle_client (pos 7)) {
  is_blocked = true;
  is_blpop = true;
  blocked_at = pos 400;
  timeout_at = pos 900;
  waiting_for_key = some (codes "a");
}

abbrev waited_table : Server
waited_table = server_with (table_with (list no_elements) type_list) waiting

nothing_Holds : Holds no_elements []
nothing_Holds = record { size = refl; room = omega arith; cell = λ i h. absurd (omega arith) }

empty-ListAt : ListAt (codes "a") [] waited_table.table
unfolding store_get_entry find index_of hash str_eq
empty-ListAt = record {
  entry = entry_at_a (list no_elements) type_list;
  array = no_elements;
  found = refl;
  value = refl;
  holds = nothing_Holds;
}

handle_rpush_wakes_example :
    Handed
      (codes "a")
      (codes "u")
      (record { command = Command.rpush; args = codes "a" ∷ codes "u" ∷ [] })
      (pos 8)
      1
      waiting
      waited_table
unfolding waits_for str_eq
handle_rpush_wakes_example =
    handle_rpush_wakes Command.rpush (codes "a") (codes "u") (pos 8) (none ∷ []) [] 1 waiting
      waited_table empty-ListAt refl tt tt refl refl (omega arith)

handle_endblpop_keeps_example :
    handle_endblpop (some 1) (server_with list_table waiting)
    ≡ done (
      tt,
      record (server_with list_table waiting) {
        heap = λ q.
            if 1 == q then some (released waiting) else (server_with list_table waiting).heap q;
        clock = λ n. 1000;
        sent = (pos 7, formatted 1024 (pair_reply (codes "a") (codes "x"))) ∷ [];
      },
    )
unfolding blpop_expired
handle_endblpop_keeps_example =
    handle_endblpop_keeps (codes "a") (codes "x") (codes "y" ∷ []) 1 waiting
      (server_with list_table waiting) list-ListAt refl refl refl
