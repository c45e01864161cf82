-- ===== src/Lists/Commands.antt =====
-- RPUSH, LPUSH, LPOP and RPOP: `handle_rpush`, `handle_lpush`, `handle_lpop`, `handle_rpop`.
use codecrafters_redis_c.Base.{
  ℕ, ◌+◌, ◌-◌, ℤ, pos_part, neg_part, Bytes, codes, crlf, str_eq, List, [], ◌∷◌, ◌++◌, Option, none,
  some, Bool, true, false, ◌&&◌, length, ltb, if◌then◌else◌,
}
use mathlib.Core.List.{tail}
use codecrafters_redis_c.Outcome.{Outcome, done, undefined}
use codecrafters_redis_c.Libc.{print_nat, bulk}
use codecrafters_redis_c.Resp.Request.{Request}
use codecrafters_redis_c.Keyspace.{ArrayList, Value, null, list, str, stream, zset, Entry}
use codecrafters_redis_c.Keyspace.Store.{store_get_entry, store_set_list, store_put_value}
use codecrafters_redis_c.Server.{Client, Address}
use codecrafters_redis_c.Server.Exec.{
  Exec, ◌>>=◌, ◌>>◌, pure, lift, gets, send, formatted, get_current_time_ms, from_table, to_table,
  load, store, arg,
}
use codecrafters_redis_c.Lists.Array.{
  read_cell, realloc, push_back, shift_right, write_front, shift_left,
}

-- (List*)(entry->value)
unfoldable pub as_list : Value → Outcome ArrayList
as_list (list l) = done l
as_list null = undefined
as_list (str s) = undefined
as_list (stream s) = undefined
as_list (zset z) = undefined

-- The value behind the pointer that `store_getEntry` returned; `null` for no entry too, since the
-- commands test for both alike.
unfoldable pub entry_value : Option Entry → Value
entry_value none = null
entry_value (some e) = e.value

abbrev pub is_null : Value → Bool
is_null null = true
is_null _ = false

-- The list of a key for a push of `n` elements: a new one in the table, or the old one with its
-- array grown.
unfoldable pub open_list : Bytes → ℕ → Value → Exec ArrayList
unfolding realloc as_list
open_list key n value =
    if is_null value
    then (do
      let l : ArrayList = record { values = realloc n []; size = 0; capacity = n }
      to_table (store_set_list key l)
      pure l)
    else (do l ← lift (as_list value); pure (record l { values = realloc (l.size + n) l.values }))

-- ":%zd\r\n"
abbrev pub number_reply : ℕ → Bytes
number_reply n = b':' ∷ (print_nat n ++ crlf)

-- "*2\r\n" and two bulk strings
abbrev pub pair_reply : Bytes → Bytes → Bytes
pair_reply a b = codes "*2\r\n" ++ (bulk a ++ bulk b)

-- The removal of the first element of a list that has one.
unfoldable pub drop_first : ArrayList → Outcome ArrayList
unfolding shift_left
drop_first l = elim (shift_left (l.size - 1) 0 1 l.values) [
  | done values ↦ done (record l { values = values; size = l.size - 1 })
  | undefined ↦ undefined
]

-- Whether a client waits in BLPOP for the key.
unfoldable pub waits_for : Bytes → Client → Bool
waits_for key c =
    c.is_blpop && (c.is_blocked && elim c.waiting_for_key [ none ↦ false | some k ↦ str_eq k key ])

-- fabs(now - blocked_at), exact below 2^53
abbrev pub waiting_time : ℕ → ℤ → ℕ
waiting_time now at = (now + neg_part at - pos_part at) + (pos_part at - (now + neg_part at))

-- The loop over `clients` for the client that has waited longest, and for more than no time.
unfoldable pub longest_waiting :
    Bytes → List (Option Address) → ℕ → Option Address → Exec (Option Address)
unfolding waits_for
longest_waiting key [] longest best = pure best
longest_waiting key (none ∷ slots) longest best = longest_waiting key slots longest best
longest_waiting key (some p ∷ slots) longest best = do
  c ← load p
  elim (waits_for key c) [
    | true ↦ do
      now ← get_current_time_ms
      let waited = waiting_time now c.blocked_at
      longest_waiting key slots (if ltb longest waited then waited else longest)
          (if ltb longest waited then some p else best)
    | false ↦ longest_waiting key slots longest best
  ]

-- The delivery of the first element to a client that waits in BLPOP.
unfoldable pub deliver : Bytes → ArrayList → Option Address → Exec (Unit {0})
unfolding drop_first
deliver key l none = pure tt
deliver key l (some p) = do
  first ← lift (read_cell l.values 0)
  c ← load p
  send c.fd (formatted 1024 (pair_reply key first))
  l' ← lift (drop_first l)
  to_table (store_put_value key (list l'))
  store p (record c { is_blocked = false; is_blpop = false; waiting_for_key = none })

unfoldable pub handle_rpush : Request → ℤ → Exec (Unit {0})
unfolding entry_value open_list push_back longest_waiting deliver
handle_rpush req client_fd =
    if ltb (length req.args) 2
    then send client_fd (codes "-ERR wrong number of arguments for 'rpush' command\r\n")
    else (do
      key ← arg req 0
      entry ← from_table (store_get_entry key)
      l ← open_list key (length req.args - 1) (entry_value entry)
      values ← lift (push_back (tail req.args) l.size l.values)
      let pushed : ArrayList = record l { values = values; size = l.size + (length req.args - 1) }
      to_table (store_put_value key (list pushed))
      send client_fd (formatted 1024 (number_reply pushed.size))
      slots ← gets (λ s. s.clients)
      waiting ← longest_waiting key slots 0 none
      deliver key pushed waiting)

unfoldable pub handle_lpush : Request → ℤ → Exec (Unit {0})
unfolding entry_value open_list shift_right write_front
handle_lpush req client_fd =
    if ltb (length req.args) 2
    then send client_fd (codes "-ERR wrong number of arguments for 'lpush' command\r\n")
    else (do
      key ← arg req 0
      let new_count = length req.args - 1
      entry ← from_table (store_get_entry key)
      l ← open_list key new_count (entry_value entry)
      shifted ← lift (shift_right l.size new_count l.values)
      values ← lift (write_front (tail req.args) shifted)
      let pushed : ArrayList = record l { values = values; size = l.size + new_count }
      to_table (store_put_value key (list pushed))
      send client_fd (formatted 1024 (number_reply pushed.size)))
