-- ===== src/Tests/Strings.antt =====
-- SET and GET on an empty table: src/handler.c.
use codecrafters_redis_c.Base.{
  ◌+◌, ◌*◌, pos, codes, [], ◌∷◌, ◌++◌, none, ◌≡◌, refl, arith, ltb, if◌then◌else◌,
}
use codecrafters_redis_c.Outcome.{done}
use codecrafters_redis_c.Libc.{atoi, bulk}
use codecrafters_redis_c.Resp.Command.{Command}
use codecrafters_redis_c.Keyspace.{Table}
use codecrafters_redis_c.Keyspace.Hash.{hash, index_of}
use codecrafters_redis_c.Keyspace.Store.{find, store_get_entry}
use codecrafters_redis_c.Server.Exec.{◌>>◌, formatted}
use codecrafters_redis_c.Strings.Commands.{handle_set, handle_get}
use codecrafters_redis_c.Strings.SetGet.{handle_get-handle_set}
use codecrafters_redis_c.Examples.{empty_server}

nothing_at_a : store_get_entry (codes "a") empty_server.table ≡ done none
unfolding store_get_entry find index_of hash
nothing_at_a = refl

atoi_5 : atoi (codes "5") ≡ done (pos 5)
unfolding atoi
atoi_5 = refl

handle_get-handle_set_example :
    (table : Table) × ((handle_set
            (record {
              command = Command.set;
              args = codes "a" ∷ codes "v" ∷ codes "EX" ∷ codes "5" ∷ [];
            })
            (pos 7)
          >> handle_get (record { command = Command.get; args = codes "a" ∷ [] }) (pos 7))
        empty_server
      ≡ done (
        tt,
        record empty_server {
          table = table;
          clock = λ i. 1000;
          sent =
              (empty_server.sent ++ (pos 7, codes "+OK\r\n") ∷ [])
              ++ (
                pos 7,
                (if ltb 1000 (1000 + 5 * 1000)
                    then formatted 1024 (bulk (codes "v"))
                    else codes "$-1\r\n"),
              )
                ∷ [];
        },
      ))
handle_get-handle_set_example =
    handle_get-handle_set Command.set Command.get (codes "a") (codes "v") (codes "5") 5 none (pos 7)
      empty_server nothing_at_a atoi_5 (omega arith) refl
