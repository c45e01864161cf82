-- ===== src/Lists/Pops.antt =====
-- LPOP and RPOP: `handle_lpop` and `handle_rpop`.
use codecrafters_redis_c.Base.{
  ℕ, zero, suc, ◌+◌, ◌-◌, ℤ, pos, pos_part, ltb_ℤ, eqb_ℤ, Bytes, codes, crlf, List, [], ◌∷◌, ◌++◌,
  map, length, ltb, ◌==◌, if◌then◌else◌,
}
use codecrafters_redis_c.Outcome
use codecrafters_redis_c.Outcome.{Outcome, done, undefined}
use codecrafters_redis_c.Libc.{print_nat, atoi, bulk, empty_buffer, print_all, sent_bytes}
use codecrafters_redis_c.Resp.Request.{Request}
use codecrafters_redis_c.Keyspace.{ArrayList, list}
use codecrafters_redis_c.Keyspace.Store.{store_get_entry, store_put_value}
use codecrafters_redis_c.Server.Exec.{
  Exec, ◌>>=◌, ◌>>◌, pure, lift, send, formatted, from_table, to_table, arg,
}
use codecrafters_redis_c.Lists.Array.{Cells, read_cell, shift_left}
use codecrafters_redis_c.Lists.Commands.{as_list, entry_value, is_null, drop_first}

-- The strings of `n` cells from cell `i` on.
unfoldable pub read_cells : ℕ → ℕ → Cells → Outcome (List Bytes)
unfolding read_cell
read_cells zero i values = done []
read_cells (suc n) i values =
    Outcome.◌>>=◌ (read_cell values i)
      λ v. Outcome.◌>>=◌ (read_cells n (i + 1) values) λ vs. done (v ∷ vs)

-- The reply of `n` bulk strings, built in 2048 bytes with no test of the room that is left.
unfoldable pub elements_reply : List Bytes → Outcome Bytes
elements_reply vs =
    Outcome.◌>>=◌
      (print_all 2048 ((b'*' ∷ (print_nat (length vs) ++ crlf)) ∷ map bulk vs) empty_buffer)
      (sent_bytes 2048)

-- The count of LPOP or RPOP, cut to the list's size.
abbrev pub pop_count : ℤ → ℕ → ℕ
pop_count count size = if ltb size (pos_part count) then size else pos_part count

abbrev pub out_of_range : Bytes
out_of_range = codes "-ERR value is out of range, must be positive\r\n"

-- `count` elements from the front: the reply, then the shift of the rest.
unfoldable pub lpop_many : Bytes → ArrayList → ℕ → ℤ → Exec (Unit {0})
unfolding read_cells elements_reply shift_left
lpop_many key l count client_fd = do
  vs ← lift (read_cells count 0 l.values)
  reply ← lift (elements_reply vs)
  send client_fd reply
  values ← lift (shift_left (l.size - count) 0 count l.values)
  to_table (store_put_value key (list (record l { values = values; size = l.size - count })))

unfoldable pub lpop_one : Bytes → ArrayList → ℤ → Exec (Unit {0})
unfolding read_cell drop_first
lpop_one key l client_fd = do
  v ← lift (read_cell l.values 0)
  send client_fd (formatted 2048 (bulk v))
  l' ← lift (drop_first l)
  to_table (store_put_value key (list l'))

-- `count` elements from the back.
unfoldable pub rpop_many : Bytes → ArrayList → ℕ → ℤ → Exec (Unit {0})
unfolding read_cells elements_reply
rpop_many key l count client_fd = do
  vs ← lift (read_cells count (l.size - count) l.values)
  reply ← lift (elements_reply vs)
  send client_fd reply
  to_table (store_put_value key (list (record l { size = l.size - count })))

unfoldable pub rpop_one : Bytes → ArrayList → ℤ → Exec (Unit {0})
unfolding read_cell
rpop_one key l client_fd = do
  v ← lift (read_cell l.values (l.size - 1))
  send client_fd (formatted 1024 (bulk v))
  to_table (store_put_value key (list (record l { size = l.size - 1 })))

-- The common course of `handle_lpop` and `handle_rpop`, which differ in the last two steps.
pop_with :
    (Bytes → ArrayList → ℕ → ℤ → Exec (Unit {0}))
    → (Bytes → ArrayList → ℤ → Exec (Unit {0}))
    → Request
    → ℤ
    → Exec (Unit {0})
unfolding entry_value as_list
pop_with many one req client_fd = if ltb (length req.args) 1 then pure tt else (do
  key ← arg req 0
  entry ← from_table (store_get_entry key)
  if is_null (entry_value entry) then send client_fd (codes "$-1\r\n") else (do
    l ← lift (as_list (entry_value entry))
    if l.size == 0
        then send client_fd (codes "*0\r\n")
        else if length req.args == 2
        then (do
          text ← arg req 1
          count ← lift (atoi text)
          if ltb_ℤ count (pos 0)
              then send client_fd out_of_range
              else if eqb_ℤ count (pos 0)
              then send client_fd (codes "*0\r\n")
              else many key l (pop_count count l.size) client_fd)
        else one key l client_fd))

unfoldable pub handle_lpop : Request → ℤ → Exec (Unit {0})
unfolding pop_with
handle_lpop = pop_with lpop_many lpop_one

unfoldable pub handle_rpop : Request → ℤ → Exec (Unit {0})
unfolding pop_with
handle_rpop = pop_with rpop_many rpop_one
