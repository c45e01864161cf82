-- ===== src/Resp/CommandNames.antt =====
-- How the names of the commands and the commands correspond.
use codecrafters_redis_c.Base.{◌≡◌, ◌≢◌, refl, true, codes, arith}
use codecrafters_redis_c.Resp.Command.{Command, find_redis_cmd, cmd_to_string, is_write_cmd}

-- Every command that `cmd_to_string` names is found again under that name.
pub find_redis_cmd-cmd_to_string :
    (c : Command) → cmd_to_string c ≢ codes "UNKNOWN" → find_redis_cmd (cmd_to_string c) ≡ c
unfolding find_redis_cmd cmd_to_string
find_redis_cmd-cmd_to_string Command.unknown h = absurd (h refl)
find_redis_cmd-cmd_to_string Command.echo h = refl
find_redis_cmd-cmd_to_string Command.ping h = refl
find_redis_cmd-cmd_to_string Command.info h = refl
find_redis_cmd-cmd_to_string Command.replconf h = refl
find_redis_cmd-cmd_to_string Command.wait h = refl
find_redis_cmd-cmd_to_string Command.psync h = refl
find_redis_cmd-cmd_to_string Command.auth h = refl
find_redis_cmd-cmd_to_string Command.select h = refl
find_redis_cmd-cmd_to_string Command.command h = refl
find_redis_cmd-cmd_to_string Command.set h = refl
find_redis_cmd-cmd_to_string Command.get h = refl
find_redis_cmd-cmd_to_string Command.del h = refl
find_redis_cmd-cmd_to_string Command.exists h = refl
find_redis_cmd-cmd_to_string Command.expire h = refl
find_redis_cmd-cmd_to_string Command.ttl h = refl
find_redis_cmd-cmd_to_string Command.type h = refl
find_redis_cmd-cmd_to_string Command.incr h = refl
find_redis_cmd-cmd_to_string Command.decr h = refl
find_redis_cmd-cmd_to_string Command.append h = refl
find_redis_cmd-cmd_to_string Command.strlen h = refl
find_redis_cmd-cmd_to_string Command.mget h = refl
find_redis_cmd-cmd_to_string Command.multi h = refl
find_redis_cmd-cmd_to_string Command.exec h = refl
find_redis_cmd-cmd_to_string Command.discard h = refl
find_redis_cmd-cmd_to_string Command.watch h = refl
find_redis_cmd-cmd_to_string Command.lpush h = refl
find_redis_cmd-cmd_to_string Command.rpush h = refl
find_redis_cmd-cmd_to_string Command.lpop h = refl
find_redis_cmd-cmd_to_string Command.rpop h = refl
find_redis_cmd-cmd_to_string Command.llen h = refl
find_redis_cmd-cmd_to_string Command.lrange h = refl
find_redis_cmd-cmd_to_string Command.hset h = refl
find_redis_cmd-cmd_to_string Command.hget h = refl
find_redis_cmd-cmd_to_string Command.hgetall h = refl
find_redis_cmd-cmd_to_string Command.hdel h = refl
find_redis_cmd-cmd_to_string Command.sadd h = refl
find_redis_cmd-cmd_to_string Command.srem h = refl
find_redis_cmd-cmd_to_string Command.smembers h = refl
find_redis_cmd-cmd_to_string Command.sismember h = refl
find_redis_cmd-cmd_to_string Command.xadd h = refl
find_redis_cmd-cmd_to_string Command.xread h = refl
find_redis_cmd-cmd_to_string Command.xrange h = refl
find_redis_cmd-cmd_to_string Command.xgroup h = refl
find_redis_cmd-cmd_to_string Command.subscribe h = refl
find_redis_cmd-cmd_to_string _ h = absurd (h refl)

-- Every write command has a name, so that what is sent to a replica names its command.
pub write_cmd_named : (c : Command) → is_write_cmd c ≡ true → cmd_to_string c ≢ codes "UNKNOWN"
unfolding is_write_cmd cmd_to_string
write_cmd_named c h = ground arith
