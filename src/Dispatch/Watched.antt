-- ===== src/Dispatch/Watched.antt =====
-- WATCH by one client and SET by another, through the whole of `handle`.
use codecrafters_redis_c.Base.{
  ℕ, suc, ◌<◌, negsuc, eqb_ℤ, Bytes, codes, str_eq, [], ◌∷◌, ◌++◌, Option, some, true, false,
  length, ◌≡◌, refl, ◌∙◌, ◌==◌, ==_refl, inl, inr, Bool-cases,
}
use codecrafters_redis_c.Outcome.{done}
use codecrafters_redis_c.Libc.{upper}
use codecrafters_redis_c.Resp.Command.{Command}
use codecrafters_redis_c.Resp.Request.{Request}
use codecrafters_redis_c.Keyspace.{Entry, str, type_string, no_time_flag}
use codecrafters_redis_c.Keyspace.Hash.{index_of}
use codecrafters_redis_c.Keyspace.Store.{store_get_entry}
use codecrafters_redis_c.Keyspace.Laws.{set_entry}
use codecrafters_redis_c.Server.{Server, Client, Address}
use codecrafters_redis_c.Server.Exec.{Exec, ◌>>◌, run_then}
use codecrafters_redis_c.Strings.Commands.{handle_set}
use codecrafters_redis_c.Transactions.Watch.{cells_at, handle_watch}
use codecrafters_redis_c.Transactions.Watching.{
  AllLive, handle_watch_one, watching_server, watching_live, watching_watches,
}
use codecrafters_redis_c.Transactions.Queue as Queue
use codecrafters_redis_c.Transactions.Queue.{is_transaction, handle_with, choose}
use codecrafters_redis_c.Transactions.Queueing.{after_load}
use codecrafters_redis_c.Dispatch.Commands.{
  Outside, dispatch_utility, dispatch_core, dispatch, handle,
}
use codecrafters_redis_c.Dispatch.Laws.{handle_plain, writing_run}
use codecrafters_redis_c.Dispatch.Isolation.{plain_set}

watch_dispatched :
    (other : Request → Address → Exec (Unit {0})) (depth : ℕ) (req : Request) (p : Address)
    (c : Client) (s : Server)
    → req.command ≡ Command.watch
    → s.heap p ≡ some c
    → Queue.handle other (suc depth) req p s ≡ handle_watch req p s
unfolding Queue.handle handle_with choose is_transaction
watch_dispatched other depth req p c s command at =
    after_load p _ c s at
    ∙ rw command
        (elim (Bool-cases c.is_queued) [ inl queued ↦ rw queued refl | inr out ↦ rw out refl ])

module _ (outside : Outside) where
  -- A client outside MULTI that watches fewer than 64 keys sends WATCH of one key, and then another
  -- client, outside MULTI and subscriptions and not the master, sets the key. The key's lookup is
  -- defined, its index has fewer than 100 watchers, all of them allocated, and no append-only file is
  -- kept. Then both commands return: the key is the last one that the first client watches, this
  -- client is marked as dirty, and the key has the new value.
  pub handle-set_watched :
      (key v : Bytes) (i : ℕ) (p q : Address) (c d : Client) (found : Option Entry) (s : Server)
      → s.heap p ≡ some c
      → c.is_queued ≡ false
      → s.heap q ≡ some d
      → (p == q) ≡ false
      → d.is_queued ≡ false
      → d.is_subscribed ≡ false
      → index_of key ≡ done i
      → length c.watch_keys < 64
      → length (cells_at i s.watchers) < 100
      → AllLive s.heap (cells_at i s.watchers)
      → store_get_entry key s.table ≡ done found
      → eqb_ℤ d.fd s.config.master_fd ≡ false
      → str_eq (upper s.config.append_only) (codes "YES") ≡ false
      → (s' : Server) × ((handle outside (record { command = Command.watch; args = key ∷ [] }) p
              >> handle outside (record { command = Command.set; args = key ∷ v ∷ [] }) q)
            s
          ≡ done (tt, s'))
        × (s'.heap p ≡ some (record c { watch_keys = c.watch_keys ++ key ∷ []; is_dirty = true }))
        × (store_get_entry key s'.table
            ≡ done (some (set_entry key (str v) no_time_flag (negsuc 0) type_string 0)))
  unfolding dispatch_utility dispatch_core is_transaction
  handle-set_watched key v i p q c d found s at_p out_p at_q apart out alone at room places live
        look other off =
      let watch : Request = record { command = Command.watch; args = key ∷ [] } in
      let set : Request = record { command = Command.set; args = key ∷ v ∷ [] } in
      let s₁ = watching_server key i p c s in
      let (table, run, now) = plain_set Command.set key v d.fd found s₁ look other in
      let s₂ : Server = record s₁ {
        table = table;
        sent = s₁.sent ++ (d.fd, codes "+OK\r\n") ∷ [];
      } in
      let (heap, wrote, spread) =
        writing_run outside (handle_set set d.fd) Command.set key (v ∷ []) i s₁ s₂ run at
          (watching_live key i p c s live) off in
      (
        record s₂ { heap = heap },
        run_then (handle outside watch p) (handle outside set q) s (
              watch_dispatched (dispatch outside) 1 watch p c s refl at_p
              ∙ handle_watch_one Command.watch key i p c s at_p out_p at room places)
            ∙ (handle_plain outside set q d s₁ (rw apart at_q) out alone refl ∙ wrote),
        spread p ∙ rw (watching_watches key i p c s, ==_refl p) refl,
        now,
      )
