-- ===== src/Lists/Queries.antt =====
-- LRANGE and LLEN: `handle_lrange` and `handle_llen`.
use codecrafters_redis_c.Base.{
  ℕ, zero, suc, ◌+◌, ◌-◌, ◌^◌, ℤ, pos, negsuc, pos_part, sub_ℕ, ltb_ℤ, eqb_ℤ, Bytes, codes, crlf,
  ◌∷◌, ◌++◌, Bool, true, false, take, length, ltb, leb, ◌==◌, ◌||◌, if◌then◌else◌,
}
use codecrafters_redis_c.Outcome
use codecrafters_redis_c.Outcome.{Outcome, done, undefined}
use codecrafters_redis_c.Libc.{print_nat, atoi, bulk}
use codecrafters_redis_c.Resp.Request.{Request}
use codecrafters_redis_c.Keyspace.{ArrayList}
use codecrafters_redis_c.Keyspace.Store.{store_get_entry}
use codecrafters_redis_c.Server.Exec.{Exec, ◌>>=◌, pure, lift, send, formatted, from_table, arg}
use codecrafters_redis_c.Lists.Array.{Cells, read_cell}
use codecrafters_redis_c.Lists.Commands.{as_list, entry_value, is_null, number_reply}

-- abs(i), which is undefined at the smallest `int`
unfoldable pub abs_int : ℤ → Outcome ℕ
abs_int (pos n) = done n
abs_int (negsuc n) = if suc n == 2 ^ 31 then undefined else done (suc n)

-- The two tests `abs(index) > list->size` both reset the start index.
unfoldable pub reset_start : ℤ → ℕ → ℕ → ℕ → ℤ
reset_start start start_abs end_abs size =
    if ltb size start_abs || ltb size end_abs then pos 0 else start

-- A negative index counts from the end.
unfoldable pub from_end : ℤ → ℕ → ℤ
from_end (pos n) size = pos n
from_end (negsuc n) size = sub_ℕ size (suc n)

-- i >= list->size, with `i` converted to `size_t`
unfoldable pub at_least_size : ℤ → ℕ → Bool
at_least_size (pos n) size = leb size n
at_least_size (negsuc n) size = true

-- The loop over the elements from `i`, up to the first that does not fit the 2048 bytes; of that
-- one the buffer has what fits.
unfoldable pub range_text : ℕ → ℕ → Cells → Bytes → Outcome Bytes
range_text zero i values text = done text
range_text (suc n) i values text = Outcome.◌>>=◌ (read_cell values i) λ v.
    elim (ltb (length (text ++ bulk v)) 2048) [
      | true ↦ range_text n (i + 1) values (text ++ bulk v)
      | false ↦ done (take 2047 (text ++ bulk v))
    ]

abbrev pub array_header : ℕ → Bytes
array_header n = b'*' ∷ (print_nat n ++ crlf)

-- The elements from `start` to `end`.
unfoldable pub range_reply : ArrayList → ℤ → ℤ → Outcome Bytes
unfolding at_least_size range_text read_cell
range_reply l start end =
    if at_least_size start l.size || ltb_ℤ end start
    then done (codes "*0\r\n")
    else if eqb_ℤ start end
    then Outcome.◌>>=◌ (read_cell l.values (pos_part start))
        (λ v. done (formatted 1024 (codes "*1\r\n" ++ bulk v)))
    else (let last = if at_least_size end l.size then l.size - 1 else pos_part end in
        let count = last + 1 - pos_part start in
        range_text count (pos_part start) l.values (array_header count))

unfoldable pub handle_lrange : Request → ℤ → Exec (Unit {0})
unfolding entry_value as_list
handle_lrange req client_fd = if ltb (length req.args) 3 then pure tt else (do
  key ← arg req 0
  entry ← from_table (store_get_entry key)
  if is_null (entry_value entry) then send client_fd (codes "*0\r\n") else (do
    l ← lift (as_list (entry_value entry))
    start_text ← arg req 1
    end_text ← arg req 2
    start ← lift (atoi start_text)
    end ← lift (atoi end_text)
    start_abs ← lift (abs_int start)
    end_abs ← lift (abs_int end)
    reply ← lift (
        range_reply l (from_end (reset_start start start_abs end_abs l.size) l.size)
          (from_end end l.size))
    send client_fd reply))

unfoldable pub handle_llen : Request → ℤ → Exec (Unit {0})
unfolding entry_value as_list
handle_llen req client_fd = if ltb (length req.args) 1 then pure tt else (do
  key ← arg req 0
  entry ← from_table (store_get_entry key)
  if is_null (entry_value entry) then send client_fd (codes ":0\r\n") else (do
    l ← lift (as_list (entry_value entry))
    send client_fd (formatted 1024 (number_reply l.size))))
