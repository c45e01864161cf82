-- ===== src/Lib.antt =====
-- A model of the Redis server of this repository, with proofs about it.
--
-- The program: src/main.c runs a poll loop; src/parser.c parses the bytes of a client into a
-- request; `handle` of src/handler.c runs the request against the hash table of src/utils.c and the
-- client's state, through one handler per command (src/list_handler.c, src/transaction_handler.c
-- and others), and sends a reply.
--
-- Parts and files:
-- - Base: the library's names, tests on numbers, integers over the native numbers, byte strings.
-- - Outcome: what C code does, a value or undefined behaviour. An access out of bounds, a read
--   through a null, dangling or uninitialised pointer and a conversion out of range are
--   `undefined`, so a theorem that something is `done` shows memory safety too.
-- - Libc: the C library that the source calls: decimal output, `atoi`, chains of `snprintf` into a
--   buffer, `toupper`, and `double` as a bit pattern. What the source does not determine (`atof`,
--   `%.17g`) is the record `Doubles`, a parameter.
-- - Resp: include/parser.h, src/parser.c, `cmd_to_string` and `isWriteCmd` of src/utils.c,
--   `copy_request_toBuffer` of src/main.c. `parse` loops over the array length, so it needs no
--   fuel.
-- - Keyspace: the table of src/utils.c and the value types of include/utils.h. A bucket is a chain
--   whose end is NULL or an uninitialised pointer. Entry values are held in the entry, and
--   `store_put_value` is a write through the pointer that `store_getEntry` returned.
-- - Server: the global state, with clients behind addresses in a heap, the array `clients`, the
--   watchers, and what was sent. Exec is the state-passing code over it. Readings of the clock come
--   from a sequence that the state holds.
-- - Lists: src/list_handler.c. An array of `char *` is a list of cells as long as its allocation; a
--   cell that was never written is empty. `Holds` relates such an array to the list of its
--   elements, and the handlers are shown to act on it as list operations.
-- - ZSets: the sorted sets of src/set_handler.c, without the geographic commands. The linked list
--   is a list; the invariant `IsSortedSet` says that it is in the order of Order (by score, then by
--   member), without repeated members, and as long as `length`.
-- - Transactions: src/transaction_handler.c, `notify_watchers` and the first part of `handle` of
--   src/handler.c. The rest of `handle` is the parameter `dispatch`, which Dispatch fills in.
--   `handle` calls itself from EXEC; the bound `depth` on these calls is shown not to matter from
--   two on, since a queue holds no transaction commands. Turns says what it is to run a queue in
--   turn, and Releasing what the end of a client's watches does.
-- - Strings: SET on strings, GET, TYPE, ECHO and PING of src/handler.c. They read the clock where
--   `store_set` and `store_get` do.
-- - Streams: XADD, XRANGE, XREAD and the clients that wait in XREAD, of src/handler.c and
--   src/utils.c. Posts gives the abstract view: `StreamAt` says that a key has the stream of some
--   posts, and `WellFormed` that their ids increase. `sscanf` and `strstr` are in Libc/Scan. The
--   copy that `to_upper` returns has no terminating NUL; what `malloc` left behind it is the
--   parameter `Leftover` of Words. A text that nothing was printed to is empty in the model;
--   reading it as a string, as XRANGE does, is undefined.
-- - Auth: src/auth_handler.c. SHA-256 is a parameter, a function on byte strings.
-- - Config: `handle_config` and `handle_key` of src/rdb_handler.c, `write_to_file` of
--   src/handler.c. What the file system holds (the lines of the manifest, whether the append-only
--   file opens) is the parameter `Files`. The copy of the setting that `to_upper` makes there is
--   taken as terminated; for the default `no` the comparison ends before the byte behind the copy.
-- - Rdb: `rdb_read_length`, `rdb_read_string`, `rdb_read_stream` and `load_rdb_into_table` of
--   src/rdb_handler.c, over the bytes of a file. A listpack with an element is freed inside the
--   loop over its elements, so reading one is undefined. A round of the loop reads a byte, so one
--   round more than bytes is enough fuel.
-- - Replication: the commands of a master in src/utility_handler.c and src/handler.c, and
--   `pass_data_toReplica` of src/main.c.
-- - Dispatch: the rest of `handle` of src/handler.c, in four groups of commands, and `handle` as a
--   whole. `Outside` has the parameters: the conversions of numbers, SHA-256, the files, the
--   handlers of the geographic commands, and `Leftover` for a request and a state.
-- - Loop: what `main` of src/main.c does with a received buffer. A buffer holds no NUL. Every round
--   of the loop consumes a byte, so one round more than bytes is enough fuel. Timers has the time
--   limits; Connections has accepted and closed connections as steps on the arrays `clients` and
--   `watch_list`, and Runs their sequences.
-- - Channels: src/channels_handler.c. `channel_subed` is the list of the cells that were written,
--   NULL ones included.
-- - Examples and Tests: small states, runs of the code on them, and the theorems at concrete
--   inputs.
--
-- Not modelled: logging by `printf` (with the conversions whose results are only logged); failed
-- allocations (`malloc` is assumed to succeed); the results of `send`; the network, the file system
-- and the process start-up. The geographic commands, the handshake of a replica, and the start-up
-- are not modelled.
pub mod Base
pub mod Outcome
pub mod Libc
pub mod Resp
pub mod Keyspace
pub mod Server
pub mod Lists
pub mod ZSets
pub mod Transactions
pub mod Strings
pub mod Streams
pub mod Channels
pub mod Auth
pub mod Config
pub mod Replication
pub mod Rdb
pub mod Dispatch
pub mod Loop
pub mod Examples
pub mod Tests
