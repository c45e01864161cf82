-- ===== src/Transactions/Incr.antt =====
-- INCR: `handle_incr`.
use codecrafters_redis_c.Base.{
  suc, ◌+◌, ◌^◌, zero, ℤ, pos, negsuc, eqb_ℤ, Bytes, codes, crlf, str_eq, none, some, ◌∷◌, ◌++◌,
  not, ◌&&◌, ◌==◌, if◌then◌else◌,
}
use codecrafters_redis_c.Outcome.{Outcome, done, undefined}
use codecrafters_redis_c.Libc.{atoi, print_int}
use codecrafters_redis_c.Resp.Request.{Request}
use codecrafters_redis_c.Keyspace.{type_string, no_time_flag, Value, str, null, list, stream, zset}
use codecrafters_redis_c.Keyspace.Store.{store_get_entry, store_set}
use codecrafters_redis_c.Server.Exec.{
  Exec, ◌>>=◌, ◌>>◌, lift, send, formatted, from_table, to_table, arg,
}

-- (char*)entry->value
unfoldable pub as_string : Value → Outcome Bytes
as_string (str s) = done s
as_string null = undefined
as_string (list l) = undefined
as_string (stream s) = undefined
as_string (zset z) = undefined

-- current_val++, which is undefined at the greatest `int`
unfoldable pub increment : ℤ → Outcome ℤ
increment (pos n) = if n + 1 == 2 ^ 31 then undefined else done (pos (n + 1))
increment (negsuc zero) = done (pos 0)
increment (negsuc (suc n)) = done (negsuc n)

-- ":%d\r\n"
abbrev pub int_reply : ℤ → Bytes
int_reply z = b':' ∷ (print_int z ++ crlf)

-- A string with no time flag and no number of seconds.
unfoldable pub set_plain : Bytes → Bytes → Exec (Unit {0})
set_plain key text = to_table (store_set key (str text) no_time_flag (negsuc 0) type_string 0)

unfoldable pub handle_incr : Request → ℤ → Exec (Unit {0})
unfolding set_plain as_string increment
handle_incr req client_fd = do
  key ← arg req 0
  found ← from_table (store_get_entry key)
  elim found [
    | none ↦ do set_plain key (codes "1"); send client_fd (codes ":1\r\n")
    | some e ↦ do
      text ← lift (as_string e.value)
      current ← lift (atoi text)
      if eqb_ℤ current (pos 0) && not (str_eq text (codes "0"))
          then send client_fd (codes "-ERR value is not an integer or out of range\r\n")
          else (do
            next ← lift (increment current)
            set_plain key (formatted 12 (print_int next))
            send client_fd (formatted 32 (int_reply next)))
  ]
