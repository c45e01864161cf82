-- ===== src/Resp/Request.antt =====
-- `RespRequest` of include/parser.h.
use codecrafters_redis_c.Base.{Bytes, List}
use codecrafters_redis_c.Resp.Command.{Command}

-- `argc` is the length of `args`. In the source it is negative for a request of no elements, which
-- has the command UNKNOWN and no argument.
pub record Request : Type 0 where
  pub command : Command
  pub args : List Bytes
