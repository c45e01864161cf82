-- ===== src/Resp/Command.antt =====
-- `REDIS_CMDS` of include/parser.h, the names that `findRedisCmd` and `findConfigCmd` of
-- src/parser.c know, and `cmd_to_string` and `isWriteCmd` of src/utils.c.
use codecrafters_redis_c.Base.{
  Bytes, codes, str_eq, List, [], ◌∷◌, Bool, true, false, if◌then◌else◌,
}
use codecrafters_redis_c.Libc.{upper}

pub data Command : Type 0 where
  unknown echo ping info replconf wait psync select command config_get keys set get del : Command
  exists expire ttl type incr decr append strlen mget multi exec discard watch unwatch : Command
  lpush rpush lpop rpop llen lrange blpop hset hget hgetall hdel sadd srem smembers : Command
  sismember zadd zrank zrange zcard zscore zrem geoadd geopos geodist geosearch auth acl : Command
  xadd xread xrange xgroup subscribe publish unsubscribe : Command

-- The tests of `findRedisCmd`, in their order.
pub names : List (Bytes × Command)
names =
    (codes "ECHO", Command.echo)
    ∷ (codes "PING", Command.ping)
    ∷ (codes "INFO", Command.info)
    ∷ (codes "REPLCONF", Command.replconf)
    ∷ (codes "WAIT", Command.wait)
    ∷ (codes "PSYNC", Command.psync)
    ∷ (codes "KEYS", Command.keys)
    ∷ (codes "AUTH", Command.auth)
    ∷ (codes "SELECT", Command.select)
    ∷ (codes "COMMAND", Command.command)
    ∷ (codes "ACL", Command.acl)
    ∷ (codes "SET", Command.set)
    ∷ (codes "GET", Command.get)
    ∷ (codes "DEL", Command.del)
    ∷ (codes "EXISTS", Command.exists)
    ∷ (codes "EXPIRE", Command.expire)
    ∷ (codes "TTL", Command.ttl)
    ∷ (codes "TYPE", Command.type)
    ∷ (codes "INCR", Command.incr)
    ∷ (codes "DECR", Command.decr)
    ∷ (codes "APPEND", Command.append)
    ∷ (codes "STRLEN", Command.strlen)
    ∷ (codes "MGET", Command.mget)
    ∷ (codes "MULTI", Command.multi)
    ∷ (codes "EXEC", Command.exec)
    ∷ (codes "DISCARD", Command.discard)
    ∷ (codes "WATCH", Command.watch)
    ∷ (codes "UNWATCH", Command.unwatch)
    ∷ (codes "LPUSH", Command.lpush)
    ∷ (codes "RPUSH", Command.rpush)
    ∷ (codes "LPOP", Command.lpop)
    ∷ (codes "RPOP", Command.rpop)
    ∷ (codes "LLEN", Command.llen)
    ∷ (codes "LRANGE", Command.lrange)
    ∷ (codes "BLPOP", Command.blpop)
    ∷ (codes "HSET", Command.hset)
    ∷ (codes "HGET", Command.hget)
    ∷ (codes "HGETALL", Command.hgetall)
    ∷ (codes "HDEL", Command.hdel)
    ∷ (codes "SADD", Command.sadd)
    ∷ (codes "SREM", Command.srem)
    ∷ (codes "SMEMBERS", Command.smembers)
    ∷ (codes "SISMEMBER", Command.sismember)
    ∷ (codes "XADD", Command.xadd)
    ∷ (codes "XREAD", Command.xread)
    ∷ (codes "XRANGE", Command.xrange)
    ∷ (codes "XGROUP", Command.xgroup)
    ∷ (codes "ZADD", Command.zadd)
    ∷ (codes "ZRANK", Command.zrank)
    ∷ (codes "ZRANGE", Command.zrange)
    ∷ (codes "ZCARD", Command.zcard)
    ∷ (codes "ZSCORE", Command.zscore)
    ∷ (codes "GEOADD", Command.geoadd)
    ∷ (codes "GEOPOS", Command.geopos)
    ∷ (codes "GEODIST", Command.geodist)
    ∷ (codes "GEOSEARCH", Command.geosearch)
    ∷ (codes "SUBSCRIBE", Command.subscribe)
    ∷ (codes "PUBLISH", Command.publish)
    ∷ (codes "UNSUBSCRIBE", Command.unsubscribe)
    ∷ (codes "ZREM", Command.zrem)
    ∷ []

lookup_name : Bytes → List (Bytes × Command) → Command
lookup_name s [] = Command.unknown
lookup_name s ((name, cmd) ∷ rest) = if str_eq s name then cmd else lookup_name s rest

unfoldable pub find_redis_cmd : Bytes → Command
unfolding names lookup_name upper str_eq
find_redis_cmd s = lookup_name (upper s) names

unfoldable pub find_config_cmd : Bytes → Command
unfolding upper str_eq
find_config_cmd s = if str_eq (upper s) (codes "GET") then Command.config_get else Command.unknown

unfoldable pub cmd_to_string : Command → Bytes
cmd_to_string Command.echo = codes "ECHO"
cmd_to_string Command.ping = codes "PING"
cmd_to_string Command.info = codes "INFO"
cmd_to_string Command.replconf = codes "REPLCONF"
cmd_to_string Command.wait = codes "WAIT"
cmd_to_string Command.psync = codes "PSYNC"
cmd_to_string Command.auth = codes "AUTH"
cmd_to_string Command.select = codes "SELECT"
cmd_to_string Command.command = codes "COMMAND"
cmd_to_string Command.set = codes "SET"
cmd_to_string Command.get = codes "GET"
cmd_to_string Command.del = codes "DEL"
cmd_to_string Command.exists = codes "EXISTS"
cmd_to_string Command.expire = codes "EXPIRE"
cmd_to_string Command.ttl = codes "TTL"
cmd_to_string Command.type = codes "TYPE"
cmd_to_string Command.incr = codes "INCR"
cmd_to_string Command.decr = codes "DECR"
cmd_to_string Command.append = codes "APPEND"
cmd_to_string Command.strlen = codes "STRLEN"
cmd_to_string Command.mget = codes "MGET"
cmd_to_string Command.multi = codes "MULTI"
cmd_to_string Command.exec = codes "EXEC"
cmd_to_string Command.discard = codes "DISCARD"
cmd_to_string Command.watch = codes "WATCH"
cmd_to_string Command.lpush = codes "LPUSH"
cmd_to_string Command.rpush = codes "RPUSH"
cmd_to_string Command.lpop = codes "LPOP"
cmd_to_string Command.rpop = codes "RPOP"
cmd_to_string Command.llen = codes "LLEN"
cmd_to_string Command.lrange = codes "LRANGE"
cmd_to_string Command.hset = codes "HSET"
cmd_to_string Command.hget = codes "HGET"
cmd_to_string Command.hgetall = codes "HGETALL"
cmd_to_string Command.hdel = codes "HDEL"
cmd_to_string Command.sadd = codes "SADD"
cmd_to_string Command.srem = codes "SREM"
cmd_to_string Command.smembers = codes "SMEMBERS"
cmd_to_string Command.sismember = codes "SISMEMBER"
cmd_to_string Command.xadd = codes "XADD"
cmd_to_string Command.xread = codes "XREAD"
cmd_to_string Command.xrange = codes "XRANGE"
cmd_to_string Command.xgroup = codes "XGROUP"
cmd_to_string Command.subscribe = codes "SUBSCRIBE"
cmd_to_string _ = codes "UNKNOWN"

-- The C function answers 0 for a write command.
unfoldable pub is_write_cmd : Command → Bool
is_write_cmd Command.set = true
is_write_cmd Command.del = true
is_write_cmd Command.append = true
is_write_cmd Command.expire = true
is_write_cmd Command.incr = true
is_write_cmd Command.decr = true
is_write_cmd Command.xadd = true
is_write_cmd Command.sadd = true
is_write_cmd Command.srem = true
is_write_cmd Command.hset = true
is_write_cmd Command.hdel = true
is_write_cmd Command.lpush = true
is_write_cmd Command.rpush = true
is_write_cmd Command.lpop = true
is_write_cmd Command.rpop = true
is_write_cmd _ = false
