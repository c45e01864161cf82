-- ===== src/Streams/Xread.antt =====
-- XREAD and XRANGE: `hasDollarSign`, `handle_block_dollar`,
-- `handle_multiple_xread`, `handle_single_xread`, `build_client`, `handle_xread` and
-- `handle_stream_print` of src/handler.c.
use codecrafters_redis_c.Base.{
  ℕ, zero, suc, ◌+◌, ◌/◌, ℤ, pos, ◌+ℤ◌, eqb_ℤ, Bytes, codes, List, [], ◌∷◌, Option, none, some,
  Bool, true, false, ◌||◌, drop, ltb, if◌then◌else◌,
}
use codecrafters_redis_c.Outcome.{Outcome, done, undefined}
use codecrafters_redis_c.Libc.{atoi}
use codecrafters_redis_c.Libc.Scan.{contains}
use codecrafters_redis_c.Resp.Command.{Command}
use codecrafters_redis_c.Resp.Request.{Request}
use codecrafters_redis_c.Server.{Address}
use codecrafters_redis_c.Server.Exec.{
  Exec, ◌>>=◌, ◌>>◌, pure, lift, send, get_current_time_ms, from_table, load, store, arg,
}
use codecrafters_redis_c.Streams.Reading.{
  last_stream_entry, Messages, xread_to_string, xread_mul_to_string, stream_entry_to_string,
}
use codecrafters_redis_c.Streams.Words.{Leftover, is_multiple_key, has_block}
use codecrafters_redis_c.Streams.Add.{wrap_xread_response}

unfoldable pub has_dollar_sign : List Bytes → Bool
has_dollar_sign [] = false
has_dollar_sign (a ∷ args) = contains a (codes "$") || has_dollar_sign args

-- The id to wait from, and the messages that are there already.
unfoldable pub handle_block_dollar : Request → Exec (Bytes × Option Messages)
unfolding has_dollar_sign last_stream_entry xread_to_string
handle_block_dollar req =
    if has_dollar_sign req.args
    then (do
      key ← arg req 3
      last ← from_table (last_stream_entry key)
      start ← elim last [ none ↦ arg req 4 | some e ↦ pure e.id ]
      messages ← from_table (xread_to_string start key)
      pure (start, messages))
    else (do start ← arg req 4; pure (start, none))

-- Copies of `n` arguments into an array of `cells` pointers.
unfoldable pub copy_args : ℕ → ℕ → List Bytes → Outcome (List Bytes)
copy_args zero cells args = done []
copy_args (suc n) zero args = undefined
copy_args (suc n) (suc cells) [] = undefined
copy_args (suc n) (suc cells) (a ∷ args) = elim (copy_args n cells args) [
  | undefined ↦ undefined
  | done copies ↦ done (a ∷ copies)
]

-- Both arrays have `streamsLength/2` cells.
unfoldable pub handle_multiple_xread : Request → ℕ → ℕ → Exec (Option Bytes)
unfolding copy_args xread_mul_to_string
handle_multiple_xread req index streams = do
  keys ← lift (copy_args streams (streams / 2) (drop (index + 1) req.args))
  ids ← lift (copy_args streams (streams / 2) (drop (index + 1 + streams) req.args))
  from_table (xread_mul_to_string keys ids)

-- get_current_time_ms() + ms, or 0 for ever.
unfoldable pub time_limit : ℤ → Exec ℤ
unfolding ◌+ℤ◌
time_limit ms =
    if eqb_ℤ ms (pos 0) then pure (pos 0) else (do now ← get_current_time_ms; pure (pos now +ℤ ms))

-- The messages, if there are any.
abbrev pub some_messages : Option Messages → Option Messages
some_messages none = none
some_messages (some m) = if ltb 0 m.count then some m else none

-- XREAD BLOCK: a response, or the client waits. A line of debugging output reads the clock first.
unfoldable pub handle_blocking_xread : Request → Address → ℕ → Exec (Option Bytes)
unfolding time_limit handle_block_dollar wrap_xread_response
handle_blocking_xread req p block = do
  now ← get_current_time_ms
  text ← arg req (block + 1)
  ms ← lift (atoi text)
  limit ← time_limit ms
  (min_id, messages) ← handle_block_dollar req
  key ← arg req 3
  c ← load p
  elim (some_messages messages) [
    | some m ↦ do
      store p (record c { timeout_at = limit; min_id = some min_id })
      pure (some (wrap_xread_response key m))
    | none ↦ do
      store p (record c {
        timeout_at = limit;
        min_id = some min_id;
        is_blocked = true;
        waiting_for_key = some key;
      })
      pure none
  ]

-- XREAD of one stream at once.
unfoldable pub handle_plain_xread : Request → Address → Exec (Option Bytes)
unfolding xread_to_string wrap_xread_response
handle_plain_xread req p = do
  c ← load p
  key ← arg req 1
  start ← arg req 2
  found ← from_table (xread_to_string start key)
  elim (some_messages found) [
    | none ↦ do send c.fd (codes "*0\r\n"); pure none
    | some m ↦ pure (some (wrap_xread_response key m))
  ]

-- `none` where the function returns 1.
unfoldable pub handle_single_xread : Leftover → Request → Address → Exec (Option Bytes)
unfolding has_block handle_blocking_xread handle_plain_xread
handle_single_xread leftover req p = do
  found ← lift (has_block leftover.in_has_block 0 req.args)
  elim found [ some block ↦ handle_blocking_xread req p block | none ↦ handle_plain_xread req p ]

-- The client waits, if the request has BLOCK; whether it does is the result. `response` is the address
-- of a variable of `handle_stream_print`, and `free` of it is undefined.
unfoldable pub build_client : Leftover → Request → Address → Exec Bool
unfolding has_block time_limit
build_client leftover req p = do
  found ← lift (has_block leftover.in_has_block 0 req.args)
  elim found [
    | none ↦ pure false
    | some block ↦ do
      text ← arg req (block + 1)
      ms ← lift (atoi text)
      limit ← time_limit ms
      key ← arg req 1
      min_id ← arg req 2
      c ← load p
      store p (record c {
        timeout_at = limit;
        is_blocked = true;
        min_id = some min_id;
        waiting_for_key = some key;
      })
      lift undefined
  ]

-- What is sent for a response that may be NULL.
unfoldable pub send_response : ℤ → Option Bytes → Exec (Unit {0})
send_response fd (some response) = send fd response
send_response fd none = do send fd (codes "-ERR Internal error\r\n"); send fd (codes "*0\r\n")

-- `handle_xread` with the end of `handle_stream_print`.
unfoldable pub handle_xread : Leftover → Request → Address → Exec (Unit {0})
unfolding is_multiple_key handle_multiple_xread handle_single_xread build_client send_response
handle_xread leftover req p = do
  multiple ← lift (is_multiple_key leftover req)
  c ← load p
  elim multiple [
    | some (index, streams) ↦ do
      response ← handle_multiple_xread req index streams
      elim response [
        | some text ↦ send_response c.fd (some text)
        | none ↦ do
          waits ← build_client leftover req p
          if waits then pure tt else send_response c.fd none
      ]
    | none ↦ do
      response ← handle_single_xread leftover req p
      elim response [ none ↦ pure tt | some text ↦ send_response c.fd (some text) ]
  ]

unfoldable pub handle_xrange : Request → Address → Exec (Unit {0})
unfolding stream_entry_to_string send_response
handle_xrange req p = do
  key ← arg req 0
  start ← arg req 1
  last ← arg req 2
  response ← from_table (stream_entry_to_string start last key)
  c ← load p
  send_response c.fd response

abbrev pub is_xrange : Command → Bool
is_xrange Command.xrange = true
is_xrange _ = false

unfoldable pub handle_stream_print : Leftover → Request → Address → Command → Exec (Unit {0})
unfolding handle_xrange handle_xread
handle_stream_print leftover req p cmd = do
  key ← arg req 0
  if is_xrange cmd then handle_xrange req p else handle_xread leftover req p
