-- ===== src/Streams/Add.antt =====
-- XADD: `handle_set_stream`, `try_deliver_stream_data` and `wrapXreadResponse` of src/handler.c.
use codecrafters_redis_c.Base.{
  suc, ℤ, pos, eqb_ℤ, Bytes, codes, crlf, str_eq, List, [], ◌∷◌, ◌++◌, Option, none, some, Bool,
  false, not, ◌&&◌, drop, ltb, ◌==◌, if◌then◌else◌,
}
use codecrafters_redis_c.Outcome.{Outcome, done, undefined}
use codecrafters_redis_c.Libc.{print_nat, bulk, empty_buffer, print_all, sent_bytes}
use codecrafters_redis_c.Libc.Scan.{contains}
use codecrafters_redis_c.Resp.Request.{Request}
use codecrafters_redis_c.Keyspace.{StreamEntry, Stream, stream, Entry}
use codecrafters_redis_c.Keyspace.Store.{store_get_entry, store_set_stream, store_put_value}
use codecrafters_redis_c.Server.{Client, Address}
use codecrafters_redis_c.Server.Exec.{
  Exec, ◌>>=◌, ◌>>◌, pure, lift, gets, send, formatted, get_current_time_ms, from_table, to_table,
  load, store, arg,
}
use codecrafters_redis_c.Streams.Ids.{validate_stream_id, generate_id, print_id}
use codecrafters_redis_c.Streams.Reading.{
  as_stream, last_entry, id_numbers, Messages, xread_to_string,
}

unfoldable pub wrap_xread_response : Bytes → Messages → Bytes
wrap_xread_response key m =
    if m.count == 0
    then codes "*0\r\n"
    else codes "*1\r\n*2\r\n" ++ (bulk key ++ b'*' ∷ (print_nat m.count ++ (crlf ++ m.text)))

-- The messages behind the id that the client waits from, if there are any, wake it.
unfoldable pub deliver : Address → Client → Bytes → Bytes → Exec (Unit {0})
unfolding wrap_xread_response
deliver p c key min_id = do
  found ← from_table (xread_to_string min_id key)
  elim found [
    | none ↦ pure tt
    | some m ↦ if not (ltb 0 m.count) then pure tt else (do
      send c.fd (wrap_xread_response key m)
      store p (record c { is_blocked = false; waiting_for_key = none; min_id = none }))
  ]

unfoldable pub try_deliver_stream_data : Address → Exec (Unit {0})
unfolding deliver
try_deliver_stream_data p = do
  c ← load p
  if not c.is_blocked then pure tt else elim c.waiting_for_key [
    | none ↦ pure tt
    | some key ↦ elim c.min_id [ none ↦ pure tt | some id ↦ deliver p c key id ]
  ]

abbrev pub waits_for : Bytes → Client → Bool
waits_for key c = c.is_blocked && elim c.waiting_for_key [ none ↦ false | some k ↦ str_eq k key ]

-- The loop over the clients at the end of XADD.
unfoldable pub wake_readers : Bytes → List (Option Address) → Exec (Unit {0})
unfolding try_deliver_stream_data
wake_readers key [] = pure tt
wake_readers key (none ∷ cells) = wake_readers key cells
wake_readers key (some p ∷ cells) = do
  c ← load p
  (if waits_for key c then try_deliver_stream_data p else pure tt)
  wake_readers key cells

abbrev pub empty_stream : Stream
empty_stream = record { entries = []; last_ms = pos 0; last_seq = pos 0; length = 0 }

-- The stream of the key, or a new one.
unfoldable pub open_stream : Option Entry → Outcome Stream
unfolding as_stream
open_stream none = done empty_stream
open_stream (some e) = as_stream e.value

-- An empty stream takes any id.
unfoldable pub check_id : Bytes → Option StreamEntry → Outcome (Option Bytes)
unfolding validate_stream_id
check_id id none = done none
check_id id (some tail) = validate_stream_id id tail.id

unfoldable pub new_id : Stream → Bytes → Exec Bytes
unfolding generate_id print_id
new_id s id =
    if contains id (codes "*")
    then (do
      now ← get_current_time_ms
      (ms, seq) ← lift (generate_id s id now)
      pure (formatted 48 (print_id ms seq)))
    else pure id

abbrev pub append_entry : StreamEntry → ℤ → ℤ → Stream → Stream
append_entry e ms seq s = record {
  entries = s.entries ++ e ∷ [];
  last_ms = ms;
  last_seq = seq;
  length = suc s.length;
}

-- `store_set_stream` frees the value of an entry that is already there, and that value is the stream.
unfoldable pub put_stream : Bytes → Option Entry → Stream → Stream → Exec (Unit {0})
put_stream key found old new = elim old.entries [
  | [] ↦ elim found [ none ↦ to_table (store_set_stream key new) | some _ ↦ λ s. undefined ]
  | _ ∷ _ ↦ to_table (store_put_value key (stream new))
]

unfoldable pub add_entry : Request → ℤ → Bytes → Option Entry → Stream → Exec (Unit {0})
unfolding new_id put_stream id_numbers wake_readers
add_entry req client_fd key found old = do
  given ← arg req 1
  id ← new_id old given
  (ms, seq) ← lift (id_numbers id)
  let e : StreamEntry = record { id = id; fields = drop 2 req.args }
  put_stream key found old (append_entry e ms seq old)
  master_fd ← gets (λ s. s.config.master_fd)
  (if eqb_ℤ client_fd master_fd then pure tt else (do
    b ← lift (print_all 128 (bulk id ∷ []) empty_buffer)
    reply ← lift (sent_bytes 128 b)
    send client_fd reply))
  cells ← gets (λ s. s.clients)
  wake_readers key cells

unfoldable pub handle_set_stream : Request → ℤ → Exec (Unit {0})
unfolding open_stream check_id add_entry last_entry
handle_set_stream req client_fd = do
  key ← arg req 0
  found ← from_table (store_get_entry key)
  old ← lift (open_stream found)
  given ← arg req 1
  error ← lift (check_id given (last_entry old.entries))
  elim error [
    | none ↦ add_entry req client_fd key found old
    | some message ↦ do
      master_fd ← gets (λ s. s.config.master_fd)
      if eqb_ℤ client_fd master_fd then pure tt else send client_fd message
  ]
