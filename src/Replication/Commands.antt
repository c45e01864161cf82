-- ===== src/Replication/Commands.antt =====
-- `handle_info`, `replconf_handle_getack`, `replconf_handle_ack`, `handle_wait` of
-- src/utility_handler.c, the REPLCONF and PSYNC branches of `handle` of src/handler.c, and
-- `pass_data_toReplica` of src/main.c.
use codecrafters_redis_c.Base.{
  ℕ, suc, ℤ, pos, ◌+ℤ◌, eqb_ℤ, leb_ℤ, Bytes, codes, crlf, str_eq, List, [], ◌∷◌, ◌++◌, Option, none,
  some, Bool, true, false, ◌&&◌, length, ltb, if◌then◌else◌,
}
use codecrafters_redis_c.Outcome.{done}
use codecrafters_redis_c.Libc.{print_nat, print_int, bulk, upper, atoi, sent_bytes}
use codecrafters_redis_c.Libc.Scan.{atoll}
use codecrafters_redis_c.Resp.Command.{is_write_cmd}
use codecrafters_redis_c.Resp.Request.{Request}
use codecrafters_redis_c.Resp.Encode.{copy_request_to_buffer}
use codecrafters_redis_c.Server.{Client, Address, RedisConfig}
use codecrafters_redis_c.Server.Exec.{
  Exec, ◌>>=◌, ◌>>◌, pure, lift, gets, send, formatted, get_current_time_ms, load, store, arg,
}

-- A write to `server_config`.
abbrev pub set_config : RedisConfig → Exec (Unit {0})
set_config config s = done (tt, record s { config = config })

abbrev pub info_content : RedisConfig → Bytes
info_content config =
    codes "role:"
    ++ (config.role
        ++ (codes "\r\nmaster_replid:"
            ++ (config.master_replid
                ++ (codes "\r\nmaster_repl_offset:"
                    ++ (print_int config.master_repl_offset ++ crlf)))))

-- The length is that of the whole text, also where the buffer cut it.
unfoldable pub info_reply : RedisConfig → Bytes
info_reply config = formatted 1200 (
    b'$'
    ∷ (print_nat (length (info_content config))
        ++ (crlf ++ (formatted 1024 (info_content config) ++ crlf))))

unfoldable pub handle_info : Request → ℤ → Exec (Unit {0})
unfolding info_reply upper
handle_info req client_fd = if ltb (length req.args) 1 then pure tt else (do
  section ← arg req 0
  config ← gets (λ s. s.config)
  if str_eq (upper section) (codes "REPLICATION")
      then send client_fd (info_reply config)
      else pure tt)

unfoldable pub replconf_handle_getack : ℤ → Exec (Unit {0})
unfolding bulk
replconf_handle_getack client_fd = do
  config ← gets (λ s. s.config)
  send client_fd
      (codes "*3\r\n$8\r\nREPLCONF\r\n$3\r\nACK\r\n" ++ bulk (print_int config.slave_repl_offset))

unfoldable pub replconf_handle_ack : Request → Address → Exec (Unit {0})
unfolding atoll
replconf_handle_ack req p = if ltb (length req.args) 2 then pure tt else (do
  text ← arg req 1
  offset ← lift (atoll text)
  c ← load p
  store p (record c { repl_offset = offset }))

-- The REPLCONF branch of `handle`.
unfoldable pub handle_replconf : Request → Address → Exec (Unit {0})
unfolding replconf_handle_getack replconf_handle_ack upper
handle_replconf req p = do
  c ← load p
  if ltb (length req.args) 1 then send c.fd (codes "+OK\r\n") else (do
    word ← arg req 0
    if str_eq (upper word) (codes "GETACK") && c.is_master
        then replconf_handle_getack c.fd
        else if str_eq (upper word) (codes "ACK")
        then replconf_handle_ack req p
        else send c.fd (codes "+OK\r\n"))

-- The bytes of `empty_rdb`.
abbrev pub empty_rdb : Bytes
empty_rdb = codes "REDIS0011" ++ 255 ∷ 0 ∷ 0 ∷ 0 ∷ 0 ∷ 0 ∷ 0 ∷ 0 ∷ 0 ∷ []

-- The PSYNC branch of `handle`.
unfoldable pub handle_psync : Address → Exec (Unit {0})
handle_psync p = do
  c ← load p
  config ← gets (λ s. s.config)
  send c.fd (
      formatted 1024 (
        codes "+FULLRESYNC "
        ++ (config.master_replid ++ b' ' ∷ (print_int config.master_repl_offset ++ crlf))))
  send c.fd (codes "$18\r\n")
  send c.fd empty_rdb
  store p (record c { is_replica = true })

-- Whether the client is a replica that has acknowledged the offset.
abbrev pub caught_up : ℤ → Client → Bool
caught_up offset c = c.is_replica && leb_ℤ offset c.repl_offset

unfoldable pub count_caught_up : ℤ → List (Option Address) → Exec ℕ
count_caught_up offset [] = pure 0
count_caught_up offset (none ∷ cells) = count_caught_up offset cells
count_caught_up offset (some p ∷ cells) = do
  c ← load p
  n ← count_caught_up offset cells
  pure (if caught_up offset c then suc n else n)

unfoldable pub count_reply : ℕ → Bytes
count_reply n = b':' ∷ (print_nat n ++ crlf)

abbrev pub getack : Bytes
getack = codes "*3\r\n$8\r\nREPLCONF\r\n$6\r\nGETACK\r\n$1\r\n*\r\n"

unfoldable pub ask_replicas : List (Option Address) → Exec (Unit {0})
ask_replicas [] = pure tt
ask_replicas (none ∷ cells) = ask_replicas cells
ask_replicas (some p ∷ cells) = do
  c ← load p
  (if c.is_replica then send c.fd getack else pure tt)
  ask_replicas cells

-- The first client with the file descriptor waits.
unfoldable pub make_wait : ℤ → ℤ → List (Option Address) → Exec (Unit {0})
unfolding ◌+ℤ◌
make_wait fd ms [] = pure tt
make_wait fd ms (none ∷ cells) = make_wait fd ms cells
make_wait fd ms (some p ∷ cells) = do
  c ← load p
  elim (eqb_ℤ c.fd fd) [
    | true ↦ do
      limit ←
          (if eqb_ℤ ms (pos 0)
            then pure (pos 0)
            else (do now ← get_current_time_ms; pure (pos now +ℤ ms)))
      store p (record c { is_waiting = true; is_blocked = true; timeout_at = limit })
    | false ↦ make_wait fd ms cells
  ]

unfoldable pub handle_wait : Request → ℤ → Exec (Unit {0})
unfolding count_caught_up count_reply ask_replicas make_wait atoll
handle_wait req client_fd = do
  config ← gets (λ s. s.config)
  first ← arg req 0
  second ← arg req 1
  wanted ← lift (atoi first)
  ms ← lift (atoll second)
  let captured : RedisConfig = record config {
    captured_master_offset = config.master_repl_offset;
    wanted_replicas = wanted;
  }
  set_config captured
  cells ← gets (λ s. s.clients)
  count ← count_caught_up config.master_repl_offset cells
  if leb_ℤ wanted (pos count) then send client_fd (count_reply count) else (do
    set_config (record captured { wait_client_fd = client_fd })
    ask_replicas cells
    make_wait client_fd ms cells)

-- One request to every replica. What is longer than the buffer of 1024 bytes is undefined.
unfoldable pub send_replicas : Request → List (Option Address) → Exec (Unit {0})
unfolding copy_request_to_buffer
send_replicas req [] = pure tt
send_replicas req (none ∷ cells) = send_replicas req cells
send_replicas req (some p ∷ cells) = do
  c ← load p
  (if c.is_replica
      then (do
        b ← lift (copy_request_to_buffer req 1024)
        text ← lift (sent_bytes 1024 b)
        send c.fd text)
      else pure tt)
  send_replicas req cells

unfoldable pub pass_data_to_replica : Request → Exec (Unit {0})
unfolding send_replicas is_write_cmd
pass_data_to_replica req = do
  cells ← gets (λ s. s.clients)
  if is_write_cmd req.command then send_replicas req cells else pure tt
