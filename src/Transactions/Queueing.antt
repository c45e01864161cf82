-- ===== src/Transactions/Queueing.antt =====
-- Commands between MULTI and EXEC: what `handle` queues, and how EXEC runs the queue.
use mathlib.Core.Path.{fun_ext}
use codecrafters_redis_c.Base.{
  ℕ, suc, ◌<◌, codes, crlf, List, [], ◌∷◌, ◌++◌, some, ◌≡◌, refl, ap, ◌∙◌, arith, true, false,
  length, if◌then◌else◌, ◌==◌, ==_refl, All, Bool-cases, inl, inr, Option-cases,
}
use codecrafters_redis_c.Outcome.{done, deref}
use codecrafters_redis_c.Libc.{print_nat}
use codecrafters_redis_c.Resp.Command.{Command}
use codecrafters_redis_c.Resp.Request.{Request}
use codecrafters_redis_c.Server.{Server, Client, Address}
use codecrafters_redis_c.Server.Exec.{Exec, load, lift, ◌>>=◌}
use codecrafters_redis_c.Transactions.Watch.{Watchers, delete_all, delete_watched_keys}
use codecrafters_redis_c.Transactions.Queue.{
  leave_queue, is_transaction, choose, enqueue, run_queue, handle_exec, handle_with, handle,
}

-- The state with a client's object replaced.
abbrev pub with_client : Address → Client → Server → Server
with_client p c s = record s { heap = λ q. if p == q then some c else s.heap q }

-- A command that is no transaction command, from a client in MULTI with room in its queue.
pub handle_queues :
    (dispatch : Request → Address → Exec (Unit {0})) (depth : ℕ) (req : Request) (p : Address)
    (c : Client) (s : Server)
    → s.heap p ≡ some c
    → c.is_queued ≡ true
    → is_transaction req.command ≡ false
    → length c.requests < 100
    → handle dispatch (suc depth) req p s
      ≡ done (
        tt,
        record s {
          heap = λ q.
              if p == q then some (record c { requests = c.requests ++ req ∷ [] }) else s.heap q;
          sent = s.sent ++ (c.fd, codes "+QUEUED\r\n") ∷ [];
        },
      )
unfolding handle handle_with enqueue
handle_queues dispatch depth req p c s at queued plain room =
    ground (arith, at, queued, plain, room)

abbrev pub IsPlain : Request → Type 0
IsPlain req = is_transaction req.command ≡ false

choose_plain :
    {X : Type 0} (cmd : Command) (a b c d e other : X)
    → is_transaction cmd ≡ false
    → choose cmd a b c d e other ≡ other
unfolding is_transaction choose
choose_plain cmd a b c d e other h = ground arith

pub after_load :
    {A : Type 0} (p : Address) (f : Client → Exec A) (c : Client) (s : Server)
    → s.heap p ≡ some c
    → (load p >>= f) s ≡ f c s
after_load p f c s at = ap (λ o. (lift (deref o) >>= f) s) at

-- Outside MULTI a command that is no transaction command goes to the code behind them.
pub plain_dispatched :
    (dispatch : Request → Address → Exec (Unit {0})) (depth : ℕ) (req : Request) (p : Address)
    (c : Client) (s : Server)
    → s.heap p ≡ some c
    → c.is_queued ≡ false
    → IsPlain req
    → handle dispatch (suc depth) req p s ≡ dispatch req p s
unfolding handle handle_with
plain_dispatched dispatch depth req p c s at out plain =
    after_load p _ c s at
    ∙ (rw out (ap (λ f. f s) (choose_plain req.command _ _ _ _ _ (dispatch req p) plain)))

-- For a queue without transaction commands, what EXEC does between the header and the end is to run
-- the code behind the transaction commands on each request in turn.
run_queue_plain :
    (dispatch : Request → Address → Exec (Unit {0})) (depth : ℕ) (queue : List Request)
    (p : Address) (s : Server)
    → All IsPlain queue
    → run_queue (handle dispatch (suc depth)) queue p s ≡ run_queue dispatch queue p s
unfolding run_queue leave_queue
run_queue_plain dispatch depth [] p s plain = refl
run_queue_plain dispatch depth (req ∷ queue) p s (first, others) = elim (Option-cases (s.heap p)) [
  | inl none_at ↦ ground (arith, none_at)
  | inr (c, at) ↦
      let freed : Server = with_client p (record c { is_queued = false }) s in
      let step =
        plain_dispatched dispatch depth req p (record c { is_queued = false }) freed
          (rw (==_refl p)) refl first in
      rw (fun_ext λ s'. run_queue_plain dispatch depth queue p s' others) (ground (arith, at, step))
]

exec_clean :
    (inner : Request → Address → Exec (Unit {0})) (p : Address) (c : Client) (s : Server)
    → s.heap p ≡ some c
    → c.is_queued ≡ true
    → c.is_dirty ≡ false
    → handle_exec inner p s
      ≡ run_queue inner c.requests p (record s {
        heap = λ q. if p == q then some (record c { requests = [] }) else s.heap q;
        sent = s.sent ++ (c.fd, b'*' ∷ (print_nat (length c.requests) ++ crlf)) ∷ [];
      })
unfolding handle_exec
exec_clean inner p c s at queued clean = ground (arith, at, queued, clean)

exec_dispatched :
    (dispatch : Request → Address → Exec (Unit {0})) (depth : ℕ) (req : Request) (p : Address)
    (c : Client) (s : Server)
    → req.command ≡ Command.exec
    → s.heap p ≡ some c
    → handle dispatch (suc depth) req p s ≡ handle_exec (handle dispatch depth) p s
unfolding handle handle_with choose is_transaction
exec_dispatched dispatch depth req p c s command at =
    after_load p _ c s at
    ∙ rw command
        (elim (Bool-cases c.is_queued) [ inl queued ↦ rw queued refl | inr out ↦ rw out refl ])

-- EXEC of such a queue, from a client in MULTI that is not marked, sends the header, empties the
-- queue, and goes on with the loop over it.
pub handle_exec_runs :
    (dispatch : Request → Address → Exec (Unit {0})) (depth : ℕ) (req : Request) (p : Address)
    (c : Client) (s : Server)
    → req.command ≡ Command.exec
    → s.heap p ≡ some c
    → c.is_queued ≡ true
    → c.is_dirty ≡ false
    → All IsPlain c.requests
    → handle dispatch (suc (suc depth)) req p s
      ≡ run_queue dispatch c.requests p (record s {
        heap = λ q. if p == q then some (record c { requests = [] }) else s.heap q;
        sent = s.sent ++ (c.fd, b'*' ∷ (print_nat (length c.requests) ++ crlf)) ∷ [];
      })
handle_exec_runs dispatch depth req p c s command at queued clean plain =
    exec_dispatched dispatch (suc depth) req p c s command at
    ∙ exec_clean (handle dispatch (suc depth)) p c s at queued clean
    ∙ run_queue_plain dispatch depth c.requests p _ plain

-- EXEC from a client in MULTI that is marked runs nothing, when the end of its watches returns.
pub handle_exec_dirty :
    (dispatch : Request → Address → Exec (Unit {0})) (depth : ℕ) (req : Request) (p : Address)
    (c : Client) (watchers : Watchers) (s : Server)
    → req.command ≡ Command.exec
    → s.heap p ≡ some c
    → c.is_queued ≡ true
    → c.is_dirty ≡ true
    → delete_all p c.watch_keys s.watchers ≡ done watchers
    → handle dispatch (suc depth) req p s
      ≡ done (
        tt,
        record s {
          watchers = watchers;
          heap = λ q.
              if p == q
              then some
                  (record c { is_queued = false; requests = []; watch_keys = []; is_dirty = false })
              else s.heap q;
          sent = s.sent ++ (c.fd, codes "*-1\r\n") ∷ [];
        },
      )
unfolding handle handle_with handle_exec choose is_transaction delete_watched_keys
handle_exec_dirty dispatch depth req p c watchers s command at queued dirty deleted =
    after_load p _ c s at ∙ rw command (rw queued (ground (arith, at, queued, dirty, deleted)))
