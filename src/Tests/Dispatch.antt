-- ===== src/Tests/Dispatch.antt =====
-- Commands through the whole of `handle`, and AUTH: src/handler.c, src/auth_handler.c.
use codecrafters_redis_c.Base.{
  ◌==◌, pos, negsuc, codes, str_eq, [], ◌∷◌, ◌++◌, none, some, ◌≡◌, refl, arith, true, false,
  if◌then◌else◌,
}
use codecrafters_redis_c.Outcome.{done}
use codecrafters_redis_c.Libc.{upper}
use codecrafters_redis_c.Resp.Command.{Command}
use codecrafters_redis_c.Keyspace.{Table, str, type_string, no_time_flag}
use codecrafters_redis_c.Keyspace.Hash.{hash, index_of}
use codecrafters_redis_c.Keyspace.Store.{find, store_get_entry}
use codecrafters_redis_c.Keyspace.Laws.{set_entry}
use codecrafters_redis_c.Server.{Server, Client, Address, Heap}
use codecrafters_redis_c.Server.Exec.{◌>>◌}
use codecrafters_redis_c.Transactions.Watch.{Watchers, cells_at}
use codecrafters_redis_c.Transactions.Releasing.{Released}
use codecrafters_redis_c.Transactions.Watching.{watches, dirty}
use codecrafters_redis_c.Auth.Commands.{handle_acl, handle_auth}
use codecrafters_redis_c.Auth.Login.{setuser_args, protected, handle_auth-handle_acl}
use codecrafters_redis_c.Dispatch.Commands.{Outside, handle}
use codecrafters_redis_c.Dispatch.Isolation.{aborted, handle_exec_after_set, handle_rpop_unanswered}
use codecrafters_redis_c.Dispatch.Watched.{handle-set_watched}
use codecrafters_redis_c.Examples.{ones, idle_client, default_config, empty_server, list_server}

abbrev outside : Outside
outside = record {
  doubles = ones;
  sha256 = λ text. text;
  files = record { manifest = none; aof_opens = false };
  handle_geoadd = λ req fd s. done (tt, s);
  handle_geopos = λ req fd s. done (tt, s);
  handle_geodist = λ req fd s. done (tt, s);
  handle_geosearch = λ req fd s. done (tt, s);
  leftover = λ req s. record { in_is_multiple_key = λ i. 0; in_has_block = λ i. 0 };
}

setuser_word : upper (codes "setuser") ≡ codes "SETUSER"
unfolding upper
setuser_word = refl

default_word : upper (codes "default") ≡ codes "DEFAULT"
unfolding upper
default_word = refl

handle_auth-handle_acl_example :
    (handle_acl
          (λ text. text)
          (record {
            command = Command.acl;
            args = setuser_args (codes "setuser") (codes "default") (codes "pw");
          })
          1
        >> handle_auth
            (λ text. text)
            (record { command = Command.auth; args = codes "default" ∷ codes "no" ∷ [] })
            1)
      empty_server
    ≡ done (
      tt,
      record (protected (λ text. text) (codes "pw") 1 (idle_client (pos 7)) empty_server) {
        sent =
            (empty_server.sent ++ (pos 7, codes "+OK\r\n") ∷ [])
            ++ (pos 7, codes "-WRONGPASS invalid username-password pair or user is disabled\r\n")
              ∷ [];
      },
    )
unfolding str_eq
handle_auth-handle_acl_example =
    handle_auth-handle_acl (λ text. text) Command.acl Command.auth (codes "setuser")
      (codes "default") (codes "pw") (codes "default") (codes "no") 1 1 (idle_client (pos 7))
      (record (idle_client (pos 7)) { is_auth = true }) empty_server setuser_word default_word
      (omega arith, (omega arith, tt)) (omega arith, (omega arith, tt)) refl refl

a_index : index_of (codes "a") ≡ done 97
unfolding index_of hash
a_index = refl

no_file : str_eq (upper default_config.append_only) (codes "YES") ≡ false
unfolding str_eq upper
no_file = refl

handle_rpop_unanswered_example :
    (heap : Heap) × (handle outside
        (record { command = Command.rpop; args = codes "a" ∷ [] })
        1
        list_server
      ≡ done (tt, record list_server { heap = heap }))
    × ((q : Address)
        → heap q ≡ (
            if watches q (cells_at 97 list_server.watchers)
            then dirty (list_server.heap q)
            else list_server.heap q))
handle_rpop_unanswered_example =
    handle_rpop_unanswered outside (codes "a") [] 97 1 (idle_client (pos 7)) list_server refl refl
      refl a_index tt no_file

-- A client in MULTI that watches "a", and another one.
abbrev watching : Client
watching = record (idle_client (pos 7)) { is_queued = true; watch_keys = codes "a" ∷ [] }

abbrev watched_server : Server
watched_server = record empty_server {
  heap = λ q. if 1 == q then some watching else if 2 == q then some (idle_client (pos 8)) else none;
  clients = none ∷ some 1 ∷ some 2 ∷ [];
  watchers = λ i. if 97 == i then some (some 1 ∷ []) else none;
}

nothing_at_a : store_get_entry (codes "a") watched_server.table ≡ done none
unfolding store_get_entry find index_of hash
nothing_at_a = refl

handle_exec_after_set_example :
    (table : Table) × (heap : Heap) × (watchers : Watchers) × ((handle outside
            (record { command = Command.set; args = codes "a" ∷ codes "v" ∷ [] })
            2
          >> handle outside (record { command = Command.exec; args = [] }) 1)
        watched_server
      ≡ done (
        tt,
        record watched_server {
          table = table;
          watchers = watchers;
          heap = aborted 1 watching heap;
          sent =
              (watched_server.sent ++ (pos 8, codes "+OK\r\n") ∷ [])
              ++ (pos 7, codes "*-1\r\n") ∷ [];
        },
      ))
    × (store_get_entry (codes "a") table
        ≡ done
            (some (set_entry (codes "a") (str (codes "v")) no_time_flag (negsuc 0) type_string 0)))
    × Released 1 (codes "a" ∷ []) watched_server.watchers watchers
handle_exec_after_set_example =
    handle_exec_after_set outside (record { command = Command.exec; args = [] }) (codes "a")
      (codes "v") 97 1 2 watching (idle_client (pos 8)) none watched_server refl refl refl refl refl
      refl a_index refl ((watching, refl), tt) ((97, a_index, omega arith), tt) nothing_at_a refl
      no_file

abbrev two_clients : Server
two_clients = record empty_server {
  heap = λ q.
      if 1 == q
      then some (idle_client (pos 7))
      else if 2 == q
      then some (idle_client (pos 8))
      else none;
  clients = none ∷ some 1 ∷ some 2 ∷ [];
}

handle-set_watched_example :
    (s' : Server) × ((handle outside (record { command = Command.watch; args = codes "a" ∷ [] }) 1
          >> handle outside (record { command = Command.set; args = codes "a" ∷ codes "v" ∷ [] }) 2)
        two_clients
      ≡ done (tt, s'))
    × (s'.heap 1
        ≡ some (record (idle_client (pos 7)) { watch_keys = codes "a" ∷ []; is_dirty = true }))
    × (store_get_entry (codes "a") s'.table
        ≡ done
            (some (set_entry (codes "a") (str (codes "v")) no_time_flag (negsuc 0) type_string 0)))
handle-set_watched_example =
    handle-set_watched outside (codes "a") (codes "v") 97 1 2 (idle_client (pos 7))
      (idle_client (pos 8)) none two_clients refl refl refl refl refl refl a_index (omega arith)
      (omega arith) tt nothing_at_a refl no_file
