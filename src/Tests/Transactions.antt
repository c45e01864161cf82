-- ===== src/Tests/Transactions.antt =====
-- MULTI, EXEC, WATCH and INCR on concrete clients: src/transaction_handler.c.
use codecrafters_redis_c.Base.{
  ◌==◌, pos, codes, crlf, str_eq, [], ◌∷◌, ◌++◌, none, some, ◌≡◌, refl, arith, true, false,
  if◌then◌else◌,
}
use codecrafters_redis_c.Outcome.{done, undefined}
use codecrafters_redis_c.Libc.{print_nat}
use codecrafters_redis_c.Resp.Command.{Command}
use codecrafters_redis_c.Resp.Request.{Request}
use codecrafters_redis_c.Keyspace.{str, type_string}
use codecrafters_redis_c.Keyspace.Hash.{hash, index_of}
use codecrafters_redis_c.Keyspace.Store.{find, store_get_entry}
use codecrafters_redis_c.Server.{Server, Client, Address}
use codecrafters_redis_c.Server.Exec.{Exec, pure, ◌>>◌}
use codecrafters_redis_c.Transactions.Watch.{Watchers, handle_watch, handle_unwatch}
use codecrafters_redis_c.Transactions.Queue.{handle}
use codecrafters_redis_c.Transactions.Queueing.{with_client}
use codecrafters_redis_c.Transactions.Turns.{
  IsQueueable, handle_each, handle_each_queued, InTurn, handle_exec-InTurn,
}
use codecrafters_redis_c.Transactions.Releasing.{Released, handle_exec_aborts}
use codecrafters_redis_c.Transactions.Watching.{handle_watch_twice}
use codecrafters_redis_c.Transactions.Incr.{int_reply}
use codecrafters_redis_c.Transactions.Counting.{Counted, handle_incr_number}
use codecrafters_redis_c.Examples.{
  empty_table, table_with, entry_at_a, idle_client, server_with, empty_server,
}

abbrev get_a : Request
get_a = record { command = Command.get; args = codes "a" ∷ [] }

abbrev exec_request : Request
exec_request = record { command = Command.exec; args = [] }

-- The code behind the transaction commands, when it does nothing.
abbrev idle : Request → Address → Exec (Unit {0})
idle req p = pure tt

abbrev queueing : Client
queueing = record (idle_client (pos 7)) { is_queued = true; requests = get_a ∷ [] }

abbrev queueing_server : Server
queueing_server = server_with empty_table queueing

-- Code behind the transaction commands that notes the arguments in the order of the calls.
abbrev recording : Request → Address → Exec (Unit {0})
recording req p s = done (tt, record s { aof = s.aof ++ req.args })

get_IsQueueable : (req : Request) → req.command ≡ Command.get → IsQueueable req
get_IsQueueable req get = record {
  not_multi = λ e. ground (arith, get, e);
  not_exec = λ e. ground (arith, get, e);
  not_discard = λ e. ground (arith, get, e);
  not_watch = λ e. ground (arith, get, e);
  not_unwatch = λ e. ground (arith, get, e);
}

handle_each_queued_example :
    handle_each (handle idle 2) (get_a ∷ get_a ∷ []) 1 queueing_server
    ≡ done (
      tt,
      record queueing_server {
        heap = λ q.
            if 1 == q
            then some (record queueing { requests = get_a ∷ get_a ∷ get_a ∷ [] })
            else queueing_server.heap q;
        sent = (pos 7, codes "+QUEUED\r\n") ∷ (pos 7, codes "+QUEUED\r\n") ∷ [];
      },
    )
handle_each_queued_example =
    handle_each_queued idle 1 (get_a ∷ get_a ∷ []) 1 queueing queueing_server refl refl
      (get_IsQueueable get_a refl, (get_IsQueueable get_a refl, tt)) (omega arith)

abbrev get_b : Request
get_b = record { command = Command.get; args = codes "b" ∷ [] }

abbrev with_two : Client
with_two = record queueing { requests = get_a ∷ get_b ∷ [] }

-- The state in which the first of the two requests runs.
abbrev started : Server
started = record (server_with empty_table with_two) {
  heap = λ q.
      if 1 == q
      then some (record with_two { requests = [] })
      else (server_with empty_table with_two).heap q;
  sent = (pos 7, b'*' ∷ (print_nat 2 ++ crlf)) ∷ [];
}

abbrev outside_multi : Client
outside_multi = record with_two { requests = []; is_queued = false }

abbrev freed : Server → Server
freed s = with_client 1 outside_multi s

abbrev ran : Request → Server → Server
ran req s = record s { aof = s.aof ++ req.args }

abbrev finished : Server
finished = freed (freed (ran get_b (freed (freed (ran get_a (freed started))))))

handle_exec-InTurn_example :
    handle recording 5 exec_request 1 (server_with empty_table with_two) ≡ done (tt, finished)
handle_exec-InTurn_example =
    handle_exec-InTurn recording 3 exec_request 1 with_two (server_with empty_table with_two)
      finished refl refl refl refl (get_IsQueueable get_a refl, (get_IsQueueable get_b refl, tt))
      (InTurn.next refl refl refl (InTurn.next refl refl refl (InTurn.ended refl)))

-- The client watches "a", at the index 97.
abbrev written : Client
written = record queueing { is_dirty = true; watch_keys = codes "a" ∷ [] }

abbrev written_server : Server
written_server = record (server_with empty_table written) {
  watchers = λ i. if 97 == i then some (some 1 ∷ some 2 ∷ []) else none;
}

index_of_a : index_of (codes "a") ≡ done 97
unfolding index_of hash
index_of_a = refl

handle_exec_aborts_example :
    (watchers : Watchers) × (handle idle 1 exec_request 1 written_server
      ≡ done (
        tt,
        record written_server {
          watchers = watchers;
          heap = λ q.
              if 1 == q
              then some (record written {
                is_queued = false;
                requests = [];
                watch_keys = [];
                is_dirty = false;
              })
              else written_server.heap q;
          sent = (pos 7, codes "*-1\r\n") ∷ [];
        },
      ))
    × Released 1 (codes "a" ∷ []) written_server.watchers watchers
handle_exec_aborts_example =
    handle_exec_aborts idle 0 exec_request 1 written written_server refl refl refl refl
      ((97, index_of_a, omega arith), tt)

-- The client at 1 watches "a", the one at 2 was freed.
abbrev watched : Server
watched = record empty_server {
  watchers = λ i. if 97 == i then some (some 1 ∷ none ∷ []) else none;
}

handle_watch_twice_example :
    (handle_watch (record { command = Command.watch; args = codes "a" ∷ codes "a" ∷ [] }) 1
        >> handle_unwatch 1)
      empty_server
    ≡ undefined
handle_watch_twice_example =
    handle_watch_twice Command.watch (codes "a") 97 1 (idle_client (pos 7)) empty_server refl refl
      refl index_of_a refl

nothing_at_a : store_get_entry (codes "a") empty_table ≡ done none
unfolding store_get_entry find index_of hash
nothing_at_a = refl

number_at_a :
    store_get_entry (codes "a") (table_with (str (print_nat 41)) type_string)
    ≡ done (some (entry_at_a (str (print_nat 41)) type_string))
unfolding store_get_entry find index_of hash str_eq
number_at_a = refl

handle_incr_number_example :
    Counted
      (codes "a")
      (print_nat 42)
      (int_reply (pos 42))
      (record { command = Command.incr; args = codes "a" ∷ [] })
      (pos 7)
      (server_with (table_with (str (print_nat 41)) type_string) (idle_client (pos 7)))
handle_incr_number_example =
    handle_incr_number Command.incr (codes "a") 41 (entry_at_a (str (print_nat 41)) type_string)
      (pos 7) (server_with (table_with (str (print_nat 41)) type_string) (idle_client (pos 7)))
      number_at_a refl (omega arith)
