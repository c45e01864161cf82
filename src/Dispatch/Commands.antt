-- ===== src/Dispatch/Commands.antt =====
-- The command tests of `handle` of src/handler.c behind those for transactions, in four groups, and
-- `handle` as a whole.
use codecrafters_redis_c.Base.{
  ℤ, Bytes, codes, ◌++◌, Bool, true, false, not, ◌&&◌, length, ltb, if◌then◌else◌,
}
use codecrafters_redis_c.Libc.Doubles.{Doubles}
use codecrafters_redis_c.Resp.Command.{Command, cmd_to_string}
use codecrafters_redis_c.Resp.Request.{Request}
use codecrafters_redis_c.Server.{Server, Client, Address}
use codecrafters_redis_c.Server.Exec.{Exec, ◌>>=◌, ◌>>◌, pure, send, formatted, load, arg}
use codecrafters_redis_c.Transactions.Watch.{notify_watchers}
use codecrafters_redis_c.Transactions.Incr.{handle_incr}
use codecrafters_redis_c.Transactions.Queue as Queue
use codecrafters_redis_c.Strings.Commands.{
  handle_set, handle_get, handle_type, handle_ping, handle_echo,
}
use codecrafters_redis_c.Lists.Commands.{handle_rpush, handle_lpush}
use codecrafters_redis_c.Lists.Pops.{handle_lpop}
use codecrafters_redis_c.Lists.Queries.{handle_lrange, handle_llen}
use codecrafters_redis_c.Lists.Blocking.{handle_blpop}
use codecrafters_redis_c.ZSets.Commands.{handle_zadd, handle_zrem}
use codecrafters_redis_c.ZSets.Queries.{handle_zrank, handle_zrange, handle_zcard, handle_zscore}
use codecrafters_redis_c.Streams.Add.{handle_set_stream}
use codecrafters_redis_c.Streams.Words.{Leftover}
use codecrafters_redis_c.Streams.Xread.{handle_stream_print}
use codecrafters_redis_c.Channels.Commands.{handle_subscribe, handle_publish, handle_unsubscribe}
use codecrafters_redis_c.Auth.Commands.{handle_auth, handle_acl}
use codecrafters_redis_c.Config.Commands.{Files, handle_config, handle_key, write_to_file}
use codecrafters_redis_c.Replication.Commands.{
  handle_info, handle_replconf, handle_psync, handle_wait,
}

-- What the model takes from outside: conversions of numbers, SHA-256, the file system, the handlers
-- of the geographic commands, and the bytes that XREAD finds in memory it has not written.
pub record Outside : Type 0 where
  pub doubles : Doubles
  pub sha256 : Bytes → Bytes
  pub files : Files
  pub handle_geoadd : Request → ℤ → Exec (Unit {0})
  pub handle_geopos : Request → ℤ → Exec (Unit {0})
  pub handle_geodist : Request → ℤ → Exec (Unit {0})
  pub handle_geosearch : Request → ℤ → Exec (Unit {0})
  pub leftover : Request → Server → Leftover

-- The commands that a client with subscriptions may send.
unfoldable pub allowed_subscribed : Command → Bool
allowed_subscribed Command.subscribe = true
allowed_subscribed Command.unsubscribe = true
allowed_subscribed Command.ping = true
allowed_subscribed _ = false

unfoldable pub subscribed_error : Command → Bytes
unfolding cmd_to_string
subscribed_error cmd = formatted 128 (
    codes "-ERR Can't execute '"
    ++ (cmd_to_string cmd
        ++ codes
            "' only (P|S)SUBSCRIBE / (P|S)UNSUBSCRIBE / PING / QUIT / RESET are allowed in this context\r\n"))

unfoldable pub ping : Client → Exec (Unit {0})
unfolding handle_ping
ping c =
    if not c.is_master && not c.is_subscribed
    then handle_ping c.fd
    else if c.is_subscribed
    then send c.fd (codes "*2\r\n$4\r\npong\r\n$0\r\n\r\n")
    else pure tt

unfoldable pub unknown_command : ℤ → Exec (Unit {0})
unknown_command fd = send fd (codes "-ERR unknown command\r\n")

-- `handle_set` with TYPE_STREAM
unfoldable pub handle_xadd : Request → ℤ → Exec (Unit {0})
unfolding handle_set_stream
handle_xadd req fd = if ltb (length req.args) 2 then pure tt else handle_set_stream req fd

module _ (outside : Outside) where
  open outside use {
    doubles, sha256, files, handle_geoadd, handle_geopos, handle_geodist, handle_geosearch,
    leftover,
  }

  -- A handler, and then what follows every command that writes.
  unfoldable pub writing : Exec (Unit {0}) → Request → Exec (Unit {0})
  unfolding notify_watchers write_to_file
  writing handler req = do handler; key ← arg req 0; notify_watchers key; write_to_file files req

  unfoldable pub zrank : Request → ℤ → Exec (Unit {0})
  unfolding handle_zrank notify_watchers
  zrank req fd = do handle_zrank req fd; key ← arg req 0; notify_watchers key

  -- Publish and subscribe, and the end of `handle`.
  unfoldable pub dispatch_channels : Command → Request → Address → ℤ → Exec (Unit {0})
  unfolding unknown_command
  dispatch_channels Command.subscribe req p fd = handle_subscribe req p
  dispatch_channels Command.publish req p fd = handle_publish req fd
  dispatch_channels Command.unsubscribe req p fd = handle_unsubscribe req p
  dispatch_channels _ req p fd = unknown_command fd

  -- Sorted sets and streams.
  unfoldable pub dispatch_sets : Command → Request → Address → ℤ → Exec (Unit {0})
  unfolding dispatch_channels writing zrank handle_xadd
  dispatch_sets Command.sadd req p fd = pure tt
  dispatch_sets Command.srem req p fd = pure tt
  dispatch_sets Command.smembers req p fd = pure tt
  dispatch_sets Command.sismember req p fd = pure tt
  dispatch_sets Command.zadd req p fd = writing (handle_zadd doubles req fd) req
  dispatch_sets Command.zrank req p fd = zrank req fd
  dispatch_sets Command.zrange req p fd = handle_zrange req fd
  dispatch_sets Command.zcard req p fd = handle_zcard req fd
  dispatch_sets Command.zscore req p fd = handle_zscore doubles req fd
  dispatch_sets Command.zrem req p fd = writing (handle_zrem req fd) req
  dispatch_sets Command.geoadd req p fd = writing (handle_geoadd req fd) req
  dispatch_sets Command.geopos req p fd = handle_geopos req fd
  dispatch_sets Command.geodist req p fd = handle_geodist req fd
  dispatch_sets Command.geosearch req p fd = handle_geosearch req fd
  dispatch_sets Command.xadd req p fd = writing (handle_xadd req fd) req
  dispatch_sets Command.xread req p fd =
      λ s. handle_stream_print (leftover req s) req p Command.xread s
  dispatch_sets Command.xrange req p fd =
      λ s. handle_stream_print (leftover req s) req p Command.xrange s
  dispatch_sets Command.xgroup req p fd = pure tt
  dispatch_sets cmd req p fd = dispatch_channels cmd req p fd

  -- Strings, numbers, lists and hashes.
  unfoldable pub dispatch_core : Command → Request → Address → ℤ → Exec (Unit {0})
  unfolding dispatch_sets writing
  dispatch_core Command.set req p fd = writing (handle_set req fd) req
  dispatch_core Command.get req p fd = handle_get req fd
  dispatch_core Command.del req p fd = writing (pure tt) req
  dispatch_core Command.exists req p fd = pure tt
  dispatch_core Command.expire req p fd = pure tt
  dispatch_core Command.ttl req p fd = pure tt
  dispatch_core Command.type req p fd = handle_type req fd
  dispatch_core Command.incr req p fd = writing (handle_incr req fd) req
  dispatch_core Command.decr req p fd = writing (pure tt) req
  dispatch_core Command.append req p fd = writing (pure tt) req
  dispatch_core Command.strlen req p fd = pure tt
  dispatch_core Command.mget req p fd = pure tt
  dispatch_core Command.lpush req p fd = writing (handle_lpush req fd) req
  dispatch_core Command.rpush req p fd = writing (handle_rpush req fd) req
  dispatch_core Command.lpop req p fd = writing (handle_lpop req fd) req
  dispatch_core Command.rpop req p fd = writing (pure tt) req
  dispatch_core Command.lrange req p fd = handle_lrange req fd
  dispatch_core Command.llen req p fd = handle_llen req fd
  dispatch_core Command.blpop req p fd = handle_blpop doubles req p
  dispatch_core Command.hset req p fd = writing (pure tt) req
  dispatch_core Command.hget req p fd = pure tt
  dispatch_core Command.hgetall req p fd = pure tt
  dispatch_core Command.hdel req p fd = writing (pure tt) req
  dispatch_core cmd req p fd = dispatch_sets cmd req p fd

  -- The commands about the server.
  unfoldable pub dispatch_utility : Command → Request → Address → Client → Exec (Unit {0})
  unfolding dispatch_core ping
  dispatch_utility Command.echo req p c = handle_echo req c.fd
  dispatch_utility Command.ping req p c = ping c
  dispatch_utility Command.info req p c = handle_info req c.fd
  dispatch_utility Command.replconf req p c = handle_replconf req p
  dispatch_utility Command.psync req p c = handle_psync p
  dispatch_utility Command.wait req p c = handle_wait req c.fd
  dispatch_utility Command.keys req p c = handle_key c.fd
  dispatch_utility Command.select req p c = send c.fd (codes "+OK\r\n")
  dispatch_utility Command.command req p c = send c.fd (codes "+OK\r\n")
  dispatch_utility Command.auth req p c = handle_auth sha256 req p
  dispatch_utility Command.acl req p c = handle_acl sha256 req p
  dispatch_utility Command.config_get req p c = handle_config req c.fd
  dispatch_utility cmd req p c = dispatch_core cmd req p c.fd

  -- `handle` behind the transaction commands.
  unfoldable pub dispatch : Request → Address → Exec (Unit {0})
  unfolding dispatch_utility subscribed_error allowed_subscribed
  dispatch req p = do
    c ← load p
    if c.is_subscribed && not (allowed_subscribed req.command)
        then send c.fd (subscribed_error req.command)
        else dispatch_utility req.command req p c

  -- `handle`, where two is enough for the nesting of its calls.
  abbrev pub handle : Request → Address → Exec (Unit {0})
  handle req p = Queue.handle dispatch 2 req p
