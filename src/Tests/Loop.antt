-- ===== src/Tests/Loop.antt =====
-- Received buffers and WAIT on small servers: src/main.c, src/utility_handler.c.
use codecrafters_redis_c.Base.{
  ℕ, zero, suc, ◌≤◌, negsuc, get_elem?, Option, ◌<◌, ◌==◌, pos, codes, [], ◌∷◌, ◌++◌, none, some,
  ◌≡◌, ◌≢◌, refl, arith, true, if◌then◌else◌,
}
use codecrafters_redis_c.Outcome.{done}
use codecrafters_redis_c.Libc.{atoi}
use codecrafters_redis_c.Libc.Scan.{atoll}
use codecrafters_redis_c.Resp.Command.{Command, cmd_to_string}
use codecrafters_redis_c.Resp.Request.{Request}
use codecrafters_redis_c.Server.{Server, Client, Address}
use codecrafters_redis_c.Transactions.Queue as Queue
use codecrafters_redis_c.Replication.Commands.{count_reply, handle_wait}
use codecrafters_redis_c.Replication.Laws.{handle_wait_reached}
use codecrafters_redis_c.Loop.Buffer.{receive}
use codecrafters_redis_c.Loop.Pipeline.{IsEncodable, encode_all, serve_all, receive-encode_all}
use codecrafters_redis_c.Loop.Connections.{LoopState, accept_client, accepted}
use codecrafters_redis_c.Loop.Invariant.{IsInOrder}
use codecrafters_redis_c.Loop.Runs.{Runs, stop, step, Runs-IsInOrder}
use codecrafters_redis_c.Examples.{idle_client, empty_server}

one_read : atoi (codes "1") ≡ done (pos 1)
unfolding atoi
one_read = refl

limit_read : atoll (codes "100") ≡ done (pos 100)
unfolding atoll
limit_read = refl

-- A replica that has acknowledged everything, besides a client.
abbrev replica : Client
replica = record (idle_client (pos 8)) { is_replica = true }

abbrev client : Client
client = record (idle_client (pos 7)) { is_queued = true }

abbrev replicated : Server
replicated = record empty_server {
  heap = λ q. if 1 == q then some client else if 2 == q then some replica else none;
  clients = none ∷ some 1 ∷ some 2 ∷ [];
}

handle_wait_reached_example :
    handle_wait
      (record { command = Command.wait; args = codes "1" ∷ codes "100" ∷ [] })
      (pos 7)
      replicated
    ≡ done (
      tt,
      record replicated {
        config = record replicated.config {
          captured_master_offset = pos 0;
          wanted_replicas = pos 1;
        };
        sent = replicated.sent ++ (pos 7, count_reply 1) ∷ [];
      },
    )
handle_wait_reached_example =
    handle_wait_reached Command.wait (codes "1") (codes "100") (pos 7) (pos 1) (pos 100) replicated
      one_read limit_read ((client, refl), ((replica, refl), tt)) refl

-- SET a v
abbrev set_a : Request
set_a = record { command = Command.set; args = codes "a" ∷ codes "v" ∷ [] }

set_named : cmd_to_string Command.set ≢ codes "UNKNOWN"
unfolding cmd_to_string
set_named e = absurd (ground (arith, e))

set_a-IsEncodable : IsEncodable set_a
set_a-IsEncodable = record {
  named = set_named;
  short = (
    (((omega arith, omega arith), tt), omega arith),
    ((((omega arith, omega arith), tt), omega arith), tt),
  );
  few = omega arith;
}

receive-encode_all_example :
    receive (λ req p s. done (tt, s)) 1 (encode_all (set_a ∷ set_a ∷ [])) replicated
    ≡ serve_all (λ req p s. done (tt, s)) (set_a ∷ set_a ∷ []) 1 replicated
receive-encode_all_example =
    receive-encode_all (λ req p s. done (tt, s)) 1 (set_a ∷ set_a ∷ []) replicated
      (set_a-IsEncodable, (set_a-IsEncodable, tt))

-- No connection, and room for two.
abbrev no_connection : LoopState
no_connection = record {
  server = record empty_server { heap = λ q. none; clients = none ∷ none ∷ none ∷ [] };
  active = 1;
  watch = pos 3 ∷ negsuc 0 ∷ negsuc 0 ∷ [];
}

no_connection-IsInOrder : IsInOrder 3 no_connection
no_connection-IsInOrder = record {
  cells = refl;
  fds = refl;
  first = omega arith;
  bound = omega arith;
  used = λ i h b. absurd (omega (arith, h, b));
  unused = empty;
  live = λ i p at. absurd (nobody i p at);
  unique = λ i j p at at'. absurd (nobody i p at);
}
  where
    empty :
        (i : ℕ)
        → 1 ≤ i
        → i < 3
        → ◌≡◌ {A = Option (Option Address)} (get_elem? (none ∷ none ∷ none ∷ []) i) (some none)
    empty zero h b = refl
    empty (suc zero) h b = refl
    empty (suc (suc zero)) h b = refl
    empty (suc (suc (suc i))) h b = absurd (omega arith)

    nobody : (i : ℕ) (p : Address) → get_elem? (none ∷ none ∷ none ∷ []) i ≡ some (some p) → ⊥
    nobody zero p at = ground (arith, at)
    nobody (suc zero) p at = ground (arith, at)
    nobody (suc (suc zero)) p at = ground (arith, at)
    nobody (suc (suc (suc i))) p at = ground (arith, at)

-- One connection is accepted.
one_accepted : Runs 3 no_connection (accept_client 3 (pos 5) 9 no_connection)
one_accepted =
    step no_connection (accept_client 3 (pos 5) 9 no_connection)
      (accept_client 3 (pos 5) 9 no_connection) (accepted (pos 5) 9 no_connection refl)
      (stop (accept_client 3 (pos 5) 9 no_connection))

Runs-IsInOrder_example : IsInOrder 3 (accept_client 3 (pos 5) 9 no_connection)
Runs-IsInOrder_example =
    Runs-IsInOrder 3 no_connection (accept_client 3 (pos 5) 9 no_connection) one_accepted
      no_connection-IsInOrder
