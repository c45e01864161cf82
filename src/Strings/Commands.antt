-- ===== src/Strings/Commands.antt =====
-- `handle_set_flags`, `handle_set` on strings, `handle_get`, `handle_type`, `handle_echo`, `handle_ping`.
use codecrafters_redis_c.Base.{
  ℤ, pos, negsuc, eqb_ℤ, Bytes, codes, str_eq, List, [], ◌∷◌, none, some, length, ltb, drop,
  if◌then◌else◌,
}
use codecrafters_redis_c.Outcome
use codecrafters_redis_c.Outcome.{Outcome, done, undefined}
use codecrafters_redis_c.Libc.{atoi, bulk}
use codecrafters_redis_c.Resp.Request.{Request}
use codecrafters_redis_c.Keyspace.{
  RedisType, type_string, type_list, type_hash, type_zset, type_set, type_stream, TimeFlags, ex, px,
  no_time_flag, Value, null, str,
}
use codecrafters_redis_c.Keyspace.Store.{store_get_entry, store_set, visible}
use codecrafters_redis_c.Server.Exec.{
  Exec, ◌>>=◌, ◌>>◌, pure, lift, gets, send, formatted, get_current_time_ms, from_table, to_table,
  arg,
}
use codecrafters_redis_c.Lists.Commands.{is_null}
use codecrafters_redis_c.Transactions.Incr.{as_string}

-- The loop of `handle_set_flags` over the arguments from the third on: the number and the flag.
unfoldable pub set_flags : List Bytes → Outcome (ℤ × TimeFlags)
set_flags [] = done (negsuc 0, no_time_flag)
set_flags (_ ∷ []) = done (negsuc 0, no_time_flag)
set_flags (a ∷ b ∷ rest) =
    let later = set_flags (b ∷ rest) in
    if str_eq a (codes "EX")
    then (Outcome.◌>>=◌ (atoi b) λ n. done (n, ex))
    else if str_eq a (codes "PX")
    then (Outcome.◌>>=◌ (atoi b) λ n. done (n, px))
    else later

-- store_set(key, value, flag, seconds, type), which reads the clock unless `seconds` is -1.
unfoldable pub set_value : Bytes → Value → TimeFlags → ℤ → RedisType → Exec (Unit {0})
set_value key value flag seconds type =
    if eqb_ℤ seconds (negsuc 0)
    then to_table (store_set key value flag seconds type 0)
    else (do now ← get_current_time_ms; to_table (store_set key value flag seconds type now))

-- `handle_set` with TYPE_STRING
unfoldable pub handle_set : Request → ℤ → Exec (Unit {0})
unfolding set_flags set_value
handle_set req client_fd = if ltb (length req.args) 2 then pure tt else (do
  (seconds, flag) ← lift (set_flags (drop 2 req.args))
  key ← arg req 0
  text ← arg req 1
  set_value key (str text) flag seconds type_string
  master_fd ← gets (λ s. s.config.master_fd)
  if eqb_ℤ client_fd master_fd then pure tt else send client_fd (codes "+OK\r\n"))

-- store_get(key), which reads the clock only for an entry with a time limit.
unfoldable pub get_value : Bytes → Exec Value
get_value key = do
  found ← from_table (store_get_entry key)
  elim found [
    | none ↦ pure null
    | some e ↦
        if eqb_ℤ e.expires_at (pos 0)
        then pure e.value
        else (do now ← get_current_time_ms; lift (visible now (some e)))
  ]

unfoldable pub handle_get : Request → ℤ → Exec (Unit {0})
unfolding get_value as_string
handle_get req client_fd = do
  key ← arg req 0
  value ← get_value key
  if is_null value
      then send client_fd (codes "$-1\r\n")
      else (do text ← lift (as_string value); send client_fd (formatted 1024 (bulk text)))

unfoldable pub type_reply : RedisType → Bytes
type_reply type_string = codes "+string\r\n"
type_reply type_list = codes "+list\r\n"
type_reply type_hash = codes "+hash\r\n"
type_reply type_zset = codes "+zset\r\n"
type_reply type_set = codes "+set\r\n"
type_reply type_stream = codes "+stream\r\n"

unfoldable pub handle_type : Request → ℤ → Exec (Unit {0})
unfolding type_reply
handle_type req client_fd = do
  key ← arg req 0
  found ← from_table (store_get_entry key)
  elim found [
    | none ↦ send client_fd (codes "+none\r\n")
    | some e ↦ send client_fd (type_reply e.type)
  ]

unfoldable pub handle_ping : ℤ → Exec (Unit {0})
handle_ping client_fd = send client_fd (codes "+PONG\r\n")

unfoldable pub handle_echo : Request → ℤ → Exec (Unit {0})
handle_echo req client_fd = do text ← arg req 0; send client_fd (formatted 1024 (bulk text))
