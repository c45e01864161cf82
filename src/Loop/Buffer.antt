-- ===== src/Loop/Buffer.antt =====
-- What `main` of src/main.c does with the bytes that it received from a client.
use codecrafters_redis_c.Base.{
  ℕ, zero, suc, ℤ, pos, ◌+ℤ◌, eqb_ℤ, Bytes, [], ◌∷◌, Option, none, some, Bool, length, ◌==◌,
  if◌then◌else◌,
}
use codecrafters_redis_c.Outcome.{Outcome, done, undefined}
use codecrafters_redis_c.Libc.Scan.{in_llong}
use codecrafters_redis_c.Resp.Command.{is_write_cmd}
use codecrafters_redis_c.Resp.Request.{Request}
use codecrafters_redis_c.Resp.Parse.{Cursor, parse}
use codecrafters_redis_c.Server.{Address, RedisConfig}
use codecrafters_redis_c.Server.Exec.{Exec, ◌>>=◌, ◌>>◌, pure, lift, gets, load}
use codecrafters_redis_c.Replication.Commands.{set_config, pass_data_to_replica}

-- while (ptr < end && *ptr != '*') ptr++
unfoldable pub skip_to_star : Bytes → Bytes
skip_to_star [] = []
skip_to_star (c ∷ s) = if c == b'*' then c ∷ s else skip_to_star s

-- An offset plus a length; an overflow is undefined.
unfoldable pub add_length : ℤ → ℕ → Outcome ℤ
unfolding in_llong ◌+ℤ◌
add_length offset n = if in_llong (offset +ℤ pos n) then done (offset +ℤ pos n) else undefined

-- The offset of a replica grows by every request from its master.
unfoldable pub grow_slave : ℕ → RedisConfig → Exec (Unit {0})
unfolding add_length
grow_slave n config = do
  offset ← lift (add_length config.slave_repl_offset n)
  set_config (record config { slave_repl_offset = offset })

-- The offset of a master grows by every write.
unfoldable pub grow_master : Bool → ℕ → RedisConfig → Exec (Unit {0})
unfolding add_length
grow_master writes n config =
    if writes
    then (do
      offset ← lift (add_length config.master_repl_offset n)
      set_config (record config { master_repl_offset = offset }))
    else pure tt

-- What follows a request of `n` bytes that was handled.
unfoldable pub account : Request → ℕ → Address → Exec (Unit {0})
unfolding grow_slave grow_master pass_data_to_replica is_write_cmd
account req n p = do
  c ← load p
  config ← gets (λ s. s.config)
  if eqb_ℤ c.fd config.master_fd
      then grow_slave n config
      else (do grow_master (is_write_cmd req.command) n config; pass_data_to_replica req)

module _ (handle : Request → Address → Exec (Unit {0})) where
  -- A request, and what follows it.
  abbrev pub serve : Request → ℕ → Address → Exec (Unit {0})
  serve req n p = do handle req p; account req n p

  -- The rest of the loop, unless the pointer has passed the end of the buffer.
  abbrev pub go_on : (Bytes → Exec (Unit {0})) → Option Bytes → Exec (Unit {0})
  go_on next none = pure tt
  go_on next (some rest) = next rest

  -- What follows `parse` at a `*` that `more` stands behind; `next` is the rest of the loop.
  unfoldable pub found :
      (Bytes → Exec (Unit {0})) → Address → Bytes → Option (Request × Cursor) → Exec (Unit {0})
  unfolding account
  found next p more none = next more
  found next p more (some (req, cursor)) = serve req cursor.offset p >> go_on next cursor.rest

  -- One round from the next `*` on.
  unfoldable pub round : (Bytes → Exec (Unit {0})) → Address → Bytes → Exec (Unit {0})
  unfolding found parse
  round next p [] = pure tt
  round next p (c ∷ more) =
      lift (parse (record { rest = some (c ∷ more); offset = 0 })) >>= found next p more

  -- The loop over the buffer, which holds no NUL. Every round consumes a byte, so that as many
  -- rounds as bytes, and one, are enough.
  unfoldable pub process : ℕ → Address → Bytes → Exec (Unit {0})
  unfolding skip_to_star round
  process zero p buffer = λ s. undefined
  process (suc n) p buffer = round (process n p) p (skip_to_star buffer)

  -- A whole buffer.
  unfoldable pub receive : Address → Bytes → Exec (Unit {0})
  unfolding process
  receive p buffer = process (suc (length buffer)) p buffer
