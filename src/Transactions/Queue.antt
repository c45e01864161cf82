-- ===== src/Transactions/Queue.antt =====
-- MULTI, EXEC, DISCARD: `handle_multi`, `handle_exec`, `handle_discard` of
-- src/transaction_handler.c, and the part of `handle` of src/handler.c that queues commands and
-- calls these.
use codecrafters_redis_c.Base.{
  ℕ, zero, suc, codes, crlf, List, [], ◌∷◌, ◌++◌, Bool, true, false, not, ◌&&◌, length, ltb,
  if◌then◌else◌,
}
use codecrafters_redis_c.Outcome.{undefined, require}
use codecrafters_redis_c.Libc.{print_nat}
use codecrafters_redis_c.Resp.Command.{Command}
use codecrafters_redis_c.Resp.Request.{Request}
use codecrafters_redis_c.Server.{Client, Address}
use codecrafters_redis_c.Server.Exec.{Exec, ◌>>=◌, ◌>>◌, lift, send, load, store}
use codecrafters_redis_c.Transactions.Watch.{delete_watched_keys, handle_watch, handle_unwatch}

unfoldable pub handle_multi : Address → Exec (Unit {0})
handle_multi p = do
  c ← load p
  if c.is_queued
      then send c.fd (codes "-ERR MULTI calls can not be nested\r\n")
      else (do store p (record c { requests = []; is_queued = true }); send c.fd (codes "+OK\r\n"))

unfoldable pub handle_discard : Address → Exec (Unit {0})
handle_discard p = do
  c ← load p
  if c.is_queued
      then (do
        store p (record c { requests = []; is_queued = false })
        delete_watched_keys p
        send c.fd (codes "+OK\r\n"))
      else send c.fd (codes "-ERR DISCARD without MULTI\r\n")

-- client->is_queued = 0
unfoldable pub leave_queue : Address → Exec (Unit {0})
leave_queue p = do c ← load p; store p (record c { is_queued = false })

-- The commands that are not queued.
unfoldable pub is_transaction : Command → Bool
is_transaction Command.multi = true
is_transaction Command.exec = true
is_transaction Command.discard = true
is_transaction Command.watch = true
is_transaction Command.unwatch = true
is_transaction _ = false

-- The copy of the request goes to the next of the 100 places.
unfoldable pub enqueue : Request → Address → Client → Exec (Unit {0})
enqueue req p c = do
  lift (require (ltb (length c.requests) 100))
  store p (record c { requests = c.requests ++ req ∷ [] })
  send c.fd (codes "+QUEUED\r\n")

-- The command tests of `handle` for the transaction commands, and `other` behind them.
unfoldable pub choose : {X : Type 0} → Command → X → X → X → X → X → X → X
choose Command.multi multi exec discard watch unwatch other = multi
choose Command.exec multi exec discard watch unwatch other = exec
choose Command.discard multi exec discard watch unwatch other = discard
choose Command.watch multi exec discard watch unwatch other = watch
choose Command.unwatch multi exec discard watch unwatch other = unwatch
choose _ multi exec discard watch unwatch other = other

module _ (inner : Request → Address → Exec (Unit {0})) where
  -- The queued requests go through `handle` again, one after the other.
  unfoldable pub run_queue : List Request → Address → Exec (Unit {0})
  unfolding leave_queue
  run_queue [] p = leave_queue p
  run_queue (req ∷ queue) p = do leave_queue p; inner req p; leave_queue p; run_queue queue p

  unfoldable pub handle_exec : Address → Exec (Unit {0})
  unfolding run_queue
  handle_exec p = do
    c ← load p
    if not c.is_queued
        then send c.fd (codes "-ERR EXEC without MULTI\r\n")
        else if c.is_dirty
        then (do
          store p (record c { is_queued = false; requests = [] })
          delete_watched_keys p
          send c.fd (codes "*-1\r\n"))
        else (do
          send c.fd (b'*' ∷ (print_nat (length c.requests) ++ crlf))
          store p (record c { requests = [] })
          run_queue c.requests p)

  -- `dispatch` is the rest of `handle`, behind the transaction commands.
  unfoldable pub handle_with :
      (Request → Address → Exec (Unit {0})) → Request → Address → Exec (Unit {0})
  unfolding handle_exec handle_multi handle_discard enqueue
  handle_with dispatch req p = do
    c ← load p
    if c.is_queued && not (is_transaction req.command)
        then enqueue req p c
        else choose req.command (handle_multi p) (handle_exec p) (handle_discard p)
            (handle_watch req p) (handle_unwatch p) (dispatch req p)

-- `handle` calls itself from EXEC; `depth` bounds the nesting of the calls.
unfoldable pub handle :
    (Request → Address → Exec (Unit {0})) → ℕ → Request → Address → Exec (Unit {0})
handle dispatch zero req p = λ s. undefined
handle dispatch (suc depth) req p = handle_with (handle dispatch depth) dispatch req p
