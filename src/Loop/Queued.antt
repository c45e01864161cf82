-- ===== src/Loop/Queued.antt =====
-- A write that a client in MULTI sends, from the buffer to the replicas.
use codecrafters_redis_c.Base.{
  ℕ, ◌<◌, pos, ◌+ℤ◌, eqb_ℤ, ◌++◌, some, true, false, length, ◌≡◌, arith,
}
use codecrafters_redis_c.Outcome.{done}
use codecrafters_redis_c.Libc.Scan.{in_llong}
use codecrafters_redis_c.Resp.Command.{is_write_cmd}
use codecrafters_redis_c.Resp.Request.{Request}
use codecrafters_redis_c.Resp.RoundTrip.{encoding}
use codecrafters_redis_c.Server.{Server, Client, Address}
use codecrafters_redis_c.Server.Exec.{Exec}
use codecrafters_redis_c.Transactions.Watching.{AllLive}
use codecrafters_redis_c.Transactions.Queue as Queue
use codecrafters_redis_c.Replication.Commands.{pass_data_to_replica}
use codecrafters_redis_c.Replication.Laws.{replica_fds, to_each, send_replicas_lem}
use codecrafters_redis_c.Loop.Buffer.{add_length, grow_master, account}

-- What follows a write from a client that is not the master: the offset of the master grows, and
-- every replica gets the request.
pub account_write :
    (req : Request) (n : ℕ) (p : Address) (c : Client) (s : Server)
    → s.heap p ≡ some c
    → eqb_ℤ c.fd s.config.master_fd ≡ false
    → is_write_cmd req.command ≡ true
    → in_llong (s.config.master_repl_offset +ℤ pos n) ≡ true
    → length (encoding req) < 1024
    → AllLive s.heap s.clients
    → account req n p s
      ≡ done (
        tt,
        record s {
          config = record s.config { master_repl_offset = s.config.master_repl_offset +ℤ pos n };
          sent = s.sent ++ to_each (encoding req) (replica_fds s.heap s.clients);
        },
      )
unfolding account grow_master add_length pass_data_to_replica
account_write req n p c s at other writes small fits live =
    let s₁ : Server = record s {
      config = record s.config { master_repl_offset = s.config.master_repl_offset +ℤ pos n };
    } in
    ground (arith, at, other, writes, small, send_replicas_lem req s.clients s₁ fits live)
