-- ===== src/Transactions/Turns.antt =====
-- Several requests of a client in MULTI, and EXEC of what they leave in the queue.
use mathlib.Core.Path.{fun_ext}
use codecrafters_redis_c.Base.{
  ℕ, suc, ◌+◌, ◌≤◌, codes, crlf, List, [], ◌∷◌, ◌++◌, append_assoc, append-nil, length-append, map,
  some, ◌≡◌, ◌≢◌, refl, sym, ap, ◌∙◌, arith, true, false, length, if◌then◌else◌, ◌==◌, ==_refl,
  ==_iff, All, inl, inr, Bool-cases,
}
use codecrafters_redis_c.Outcome.{done}
use codecrafters_redis_c.Libc.{print_nat}
use codecrafters_redis_c.Resp.Command.{Command}
use codecrafters_redis_c.Resp.Request.{Request}
use codecrafters_redis_c.Server.{Server, Client, Address, Heap}
use codecrafters_redis_c.Server.Exec.{Exec, ◌>>◌, pure, run_then}
use codecrafters_redis_c.Transactions.Queue.{leave_queue, is_transaction, run_queue, handle}
use codecrafters_redis_c.Transactions.Queueing.{
  with_client, IsPlain, handle_queues, handle_exec_runs,
}

-- None of MULTI, EXEC, DISCARD, WATCH and UNWATCH.
pub record IsQueueable (req : Request) : Type 0 where
  pub not_multi : req.command ≢ Command.multi
  pub not_exec : req.command ≢ Command.exec
  pub not_discard : req.command ≢ Command.discard
  pub not_watch : req.command ≢ Command.watch
  pub not_unwatch : req.command ≢ Command.unwatch

plain_command :
    (cmd : Command)
    → cmd ≢ Command.multi
    → cmd ≢ Command.exec
    → cmd ≢ Command.discard
    → cmd ≢ Command.watch
    → cmd ≢ Command.unwatch
    → is_transaction cmd ≡ false
unfolding is_transaction
plain_command Command.multi m e d w u = absurd (m refl)
plain_command Command.exec m e d w u = absurd (e refl)
plain_command Command.discard m e d w u = absurd (d refl)
plain_command Command.watch m e d w u = absurd (w refl)
plain_command Command.unwatch m e d w u = absurd (u refl)
plain_command _ m e d w u = refl

IsQueueable-IsPlain : (req : Request) → IsQueueable req → IsPlain req
IsQueueable-IsPlain req h =
    plain_command req.command h.not_multi h.not_exec h.not_discard h.not_watch h.not_unwatch

All-IsPlain : (reqs : List Request) → All IsQueueable reqs → All IsPlain reqs
All-IsPlain [] h = tt
All-IsPlain (req ∷ reqs) (first, others) = (IsQueueable-IsPlain req first, All-IsPlain reqs others)

-- The requests of one client, handled one after the other.
abbrev pub handle_each :
    (Request → Address → Exec (Unit {0})) → List Request → Address → Exec (Unit {0})
handle_each run [] p = pure tt
handle_each run (req ∷ reqs) p = run req p >> handle_each run reqs p

same_heap :
    (heap : Heap) (p : Address) (c : Client)
    → heap p ≡ some c
    → heap ≡ (λ q. if p == q then some c else heap q)
same_heap heap p c at = fun_ext λ q. elim (Bool-cases (p == q)) [
  | inl same ↦ rw same (ap heap (sym ((==_iff p q).0 same)) ∙ at)
  | inr apart ↦ rw apart refl
]

abbrev with_heap : Server → Heap → Server
with_heap s heap = record s { heap = heap }

abbrev updated : Address → Client → Heap → Heap
updated p c heap q = if p == q then some c else heap q

updated_twice :
    (heap : Heap) (p : Address) (c d : Client) → updated p d (updated p c heap) ≡ updated p d heap
updated_twice heap p c d =
    fun_ext λ q. elim (Bool-cases (p == q)) [ inl same ↦ rw same refl | inr apart ↦ rw apart refl ]

-- Requests from a client in MULTI, none of which is MULTI, EXEC, DISCARD, WATCH or UNWATCH, and with
-- which its queue has at most 100 requests, run nothing when they are handled one after the other:
-- they stand at the end of the queue, in their order, the client gets `+QUEUED` for each of them, and
-- nothing else changes. This holds whatever the code behind the transaction commands does.
pub handle_each_queued :
    (dispatch : Request → Address → Exec (Unit {0})) (depth : ℕ) (reqs : List Request) (p : Address)
    (c : Client) (s : Server)
    → s.heap p ≡ some c
    → c.is_queued ≡ true
    → All IsQueueable reqs
    → length c.requests + length reqs ≤ 100
    → handle_each (handle dispatch (suc depth)) reqs p s
      ≡ done (
        tt,
        record s {
          heap =
              λ q. if p == q then some (record c { requests = c.requests ++ reqs }) else s.heap q;
          sent = s.sent ++ map (λ req. (c.fd, codes "+QUEUED\r\n")) reqs;
        },
      )
handle_each_queued dispatch depth [] p c s at queued h room =
    ground
      (arith, ap (with_heap s) (same_heap s.heap p c at), append-nil c.requests, append-nil s.sent)
handle_each_queued dispatch depth (req ∷ reqs) p c s at queued (first, others) room =
    let longer : Client = record c { requests = c.requests ++ req ∷ [] } in
    let s₁ : Server = record (with_client p longer s) {
      sent = s.sent ++ (c.fd, codes "+QUEUED\r\n") ∷ [];
    } in
    let rest =
      handle_each_queued dispatch depth reqs p longer s₁ (rw (==_refl p) refl) queued others
        (ground (arith, room, length-append c.requests (req ∷ []))) in
    run_then (handle dispatch (suc depth) req p) (handle_each (handle dispatch (suc depth)) reqs p)
      s
      (handle_queues dispatch depth req p c s at queued (IsQueueable-IsPlain req first)
        (omega (arith, room)))
    ∙ (rest
        ∙ ground (
          arith,
          ap (with_heap s) (
              updated_twice s.heap p longer (record longer { requests = longer.requests ++ reqs })),
          append_assoc c.requests (req ∷ []) reqs,
          append_assoc s.sent ((c.fd, codes "+QUEUED\r\n") ∷ [])
              (map (λ r. (c.fd, codes "+QUEUED\r\n")) reqs),
        ))

-- `s'` comes from `s` when the requests are run in turn: for each, the client is taken out of MULTI,
-- the request is run, and the next one starts from the state that this leaves. After each request,
-- and at the end, the client is outside MULTI.
pub data InTurn (run : Request → Address → Exec (Unit {0})) (p : Address)
    : List Request → Server → Server → Type 0 where
  ended :
      {s : Server} {c : Client}
      → s.heap p ≡ some c
      → InTurn run p [] s (with_client p (record c { is_queued = false }) s)
  next :
      {req : Request} {reqs : List Request} {s s₁ s' : Server} {c c₁ : Client}
      → s.heap p ≡ some c
      → run req p (with_client p (record c { is_queued = false }) s) ≡ done (tt, s₁)
      → s₁.heap p ≡ some c₁
      → InTurn run p reqs (with_client p (record c₁ { is_queued = false }) s₁) s'
      → InTurn run p (req ∷ reqs) s s'

run_queue-InTurn :
    (run : Request → Address → Exec (Unit {0})) (p : Address) (reqs : List Request) (s s' : Server)
    → InTurn run p reqs s s'
    → run_queue run reqs p s ≡ done (tt, s')
unfolding run_queue leave_queue
run_queue-InTurn run p _ _ _ (ended at) = ground (arith, at)
run_queue-InTurn run p _ _ _ (next {req} {reqs} {s} {s₁} {s'} {c} {c₁} at ran at₁ others) =
    ground (arith, at, ran, at₁, run_queue-InTurn run p reqs _ s' others)

-- EXEC from a client in MULTI that is not marked as dirty, with a queue in which no request is
-- MULTI, EXEC, DISCARD, WATCH or UNWATCH: first the client gets the number of queued requests and
-- its queue becomes empty, and when from there every queued request returns, run in turn and
-- outside MULTI by the code behind the transaction commands, EXEC returns with the state that the
-- last of them leaves. The calls of `handle` nest at most two deep here, and every bound from two
-- on gives this result.
pub handle_exec-InTurn :
    (dispatch : Request → Address → Exec (Unit {0})) (depth : ℕ) (req : Request) (p : Address)
    (c : Client) (s s' : Server)
    → req.command ≡ Command.exec
    → s.heap p ≡ some c
    → c.is_queued ≡ true
    → c.is_dirty ≡ false
    → All IsQueueable c.requests
    → InTurn dispatch p c.requests
        (record s {
          heap = λ q. if p == q then some (record c { requests = [] }) else s.heap q;
          sent = s.sent ++ (c.fd, b'*' ∷ (print_nat (length c.requests) ++ crlf)) ∷ [];
        })
        s'
    → handle dispatch (suc (suc depth)) req p s ≡ done (tt, s')
handle_exec-InTurn dispatch depth req p c s s' command at queued clean h turns =
    handle_exec_runs dispatch depth req p c s command at queued clean (All-IsPlain c.requests h)
    ∙ run_queue-InTurn dispatch p c.requests _ s' turns
