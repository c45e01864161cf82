-- ===== src/Dispatch/Isolation.antt =====
-- RPOP through `handle`, and the EXEC of a client whose watched key another client has set.
use codecrafters_redis_c.Base.{
  ℕ, ℤ, negsuc, eqb_ℤ, Bytes, codes, str_eq, str_eq_refl, List, [], ◌∷◌, ◌++◌, Option, some, true,
  false, ◌≡◌, refl, ◌∙◌, arith, ◌==◌, if◌then◌else◌,
}
use codecrafters_redis_c.Outcome.{done}
use codecrafters_redis_c.Libc.{upper}
use codecrafters_redis_c.Resp.Command.{Command}
use codecrafters_redis_c.Resp.Request.{Request}
use codecrafters_redis_c.Keyspace.{Entry, Table, str, type_string, no_time_flag}
use codecrafters_redis_c.Keyspace.Hash.{index_of}
use codecrafters_redis_c.Keyspace.Store.{store_get_entry}
use codecrafters_redis_c.Keyspace.Laws.{
  store_set_after_lookup, store_get_entry-store_set, set_entry,
}
use codecrafters_redis_c.Server.{Server, Client, Address, Heap}
use codecrafters_redis_c.Server.Exec.{◌>>◌, run_then}
use codecrafters_redis_c.Strings.Commands.{set_flags, set_value, handle_set}
use codecrafters_redis_c.Transactions.Watch.{Watchers, cells_at}
use codecrafters_redis_c.Transactions.Watching.{AllLive, watches, dirty}
use codecrafters_redis_c.Transactions.Queue.{is_transaction}
use codecrafters_redis_c.Transactions.Releasing.{WatchedOnce, Released, handle_exec_aborts}
use codecrafters_redis_c.Dispatch.Commands.{
  Outside, dispatch_utility, dispatch_core, dispatch, handle,
}
use codecrafters_redis_c.Dispatch.Laws.{handle_plain, writing_run}

-- SET with a key and a value, from a client that is not the master.
pub plain_set :
    (cmd : Command) (key v : Bytes) (fd : ℤ) (found : Option Entry) (s : Server)
    → store_get_entry key s.table ≡ done found
    → eqb_ℤ fd s.config.master_fd ≡ false
    → (table : Table) × (handle_set (record { command = cmd; args = key ∷ v ∷ [] }) fd s
        ≡ done (tt, record s { table = table; sent = s.sent ++ (fd, codes "+OK\r\n") ∷ [] }))
      × (store_get_entry key table
          ≡ done (some (set_entry key (str v) no_time_flag (negsuc 0) type_string 0)))
unfolding handle_set set_value set_flags
plain_set cmd key v fd found s h other =
    let (table, written) =
      store_set_after_lookup key (str v) no_time_flag (negsuc 0) type_string 0 found s.table h in
    (
      table,
      ground (arith, written, other),
      store_get_entry-store_set key key (str v) no_time_flag (negsuc 0) type_string 0 s.table table
            written
          ∙ rw (str_eq_refl key) refl,
    )

-- The client behind `p` after an EXEC that ran nothing.
abbrev pub aborted : Address → Client → Heap → Heap
aborted p c heap = λ r.
    if p == r
    then some (record c { is_queued = false; requests = []; watch_keys = []; is_dirty = false })
    else heap r

module _ (outside : Outside) where
  -- A client is in MULTI and stands among the watchers of a key's index; another client, outside
  -- MULTI and subscriptions and not the master, sets the key, and then the first client sends EXEC.
  -- The key's lookup is defined, all clients that watch its index are allocated, each key that the
  -- first client watches has an index and the client stands at most once among the watchers of that
  -- index, and no append-only file is kept. Then both commands return: the key has the new value, the
  -- first client gets the null array and runs none of its queue, it is out of MULTI and watches
  -- nothing, and at the indices of the keys that it watched, and nowhere else, its places among the
  -- watchers become NULL.
  pub handle_exec_after_set :
      (exec : Request) (key v : Bytes) (i : ℕ) (p q : Address) (c d : Client) (found : Option Entry)
      (s : Server)
      → exec.command ≡ Command.exec
      → s.heap p ≡ some c
      → c.is_queued ≡ true
      → s.heap q ≡ some d
      → d.is_queued ≡ false
      → d.is_subscribed ≡ false
      → index_of key ≡ done i
      → watches p (cells_at i s.watchers) ≡ true
      → AllLive s.heap (cells_at i s.watchers)
      → WatchedOnce p c.watch_keys s.watchers
      → store_get_entry key s.table ≡ done found
      → eqb_ℤ d.fd s.config.master_fd ≡ false
      → str_eq (upper s.config.append_only) (codes "YES") ≡ false
      → (table : Table) × (heap : Heap) × (watchers : Watchers) × ((handle outside
                (record { command = Command.set; args = key ∷ v ∷ [] })
                q
              >> handle outside exec p)
            s
          ≡ done (
            tt,
            record s {
              table = table;
              watchers = watchers;
              heap = aborted p c heap;
              sent = (s.sent ++ (d.fd, codes "+OK\r\n") ∷ []) ++ (c.fd, codes "*-1\r\n") ∷ [];
            },
          ))
        × (store_get_entry key table
            ≡ done (some (set_entry key (str v) no_time_flag (negsuc 0) type_string 0)))
        × Released p c.watch_keys s.watchers watchers
  unfolding dispatch_utility dispatch_core is_transaction
  handle_exec_after_set exec key v i p q c d found s command at_p queued at_q out alone at watched
        live once look other off =
      let set : Request = record { command = Command.set; args = key ∷ v ∷ [] } in
      let (table, run, now) = plain_set Command.set key v d.fd found s look other in
      let s₁ : Server = record s { table = table; sent = s.sent ++ (d.fd, codes "+OK\r\n") ∷ [] } in
      let (heap, wrote, spread) =
        writing_run outside (handle_set set d.fd) Command.set key (v ∷ []) i s s₁ run at live off in
      let marked : heap p ≡ some (record c { is_dirty = true }) =
        spread p ∙ rw watched (rw at_p refl) in
      let (watchers, aborts, released) =
        handle_exec_aborts (dispatch outside) 1 exec p (record c { is_dirty = true })
          (record s₁ { heap = heap }) command marked queued refl once in
      (
        table,
        heap,
        watchers,
        run_then (handle outside set q) (handle outside exec p) s
              (handle_plain outside set q d s at_q out alone refl ∙ wrote)
            ∙ aborts,
        now,
        released,
      )

  -- RPOP from a client outside MULTI and subscriptions, with a key all of whose watchers are
  -- allocated, and no append-only file, returns, and sends nothing and changes no list: the only
  -- effect is that the watching clients are marked.
  pub handle_rpop_unanswered :
      (key : Bytes) (args : List Bytes) (i : ℕ) (p : Address) (c : Client) (s : Server)
      → s.heap p ≡ some c
      → c.is_queued ≡ false
      → c.is_subscribed ≡ false
      → index_of key ≡ done i
      → AllLive s.heap (cells_at i s.watchers)
      → str_eq (upper s.config.append_only) (codes "YES") ≡ false
      → (heap : Heap) × (handle outside (record { command = Command.rpop; args = key ∷ args }) p s
          ≡ done (tt, record s { heap = heap }))
        × ((q : Address)
            → heap q ≡ (if watches q (cells_at i s.watchers) then dirty (s.heap q) else s.heap q))
  unfolding dispatch_utility dispatch_core is_transaction
  handle_rpop_unanswered key args i p c s at_p out alone at live off =
      let rpop : Request = record { command = Command.rpop; args = key ∷ args } in
      let (heap, wrote, spread) =
        writing_run outside (λ t. done (tt, t)) Command.rpop key args i s s refl at live off in
      (heap, handle_plain outside rpop p c s at_p out alone refl ∙ wrote, spread)
