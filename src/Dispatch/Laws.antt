-- ===== src/Dispatch/Laws.antt =====
-- Commands through the whole of `handle`.
use codecrafters_redis_c.Base.{
  ℕ, Bytes, codes, str_eq, List, ◌∷◌, some, false, ◌≡◌, refl, ◌∙◌, if◌then◌else◌,
}
use codecrafters_redis_c.Outcome.{done}
use codecrafters_redis_c.Libc.{upper}
use codecrafters_redis_c.Resp.Command.{Command}
use codecrafters_redis_c.Resp.Request.{Request}
use codecrafters_redis_c.Keyspace.Hash.{index_of}
use codecrafters_redis_c.Server.{Server, Client, Address, Heap}
use codecrafters_redis_c.Server.Exec.{Exec, run_then}
use codecrafters_redis_c.Transactions.Watch.{cells_at, notify_watchers}
use codecrafters_redis_c.Transactions.Watching.{AllLive, watches, dirty, notify_watchers_lem}
use codecrafters_redis_c.Transactions.Queue.{is_transaction}
use codecrafters_redis_c.Transactions.Queueing.{after_load, plain_dispatched}
use codecrafters_redis_c.Config.Commands.{write_to_file}
use codecrafters_redis_c.Dispatch.Commands.{Outside, writing, dispatch_utility, dispatch, handle}

module _ (outside : Outside) where
  open outside use {files}

  -- Outside MULTI and subscriptions, a command that is no transaction command goes to its handler.
  pub handle_plain :
      (req : Request) (p : Address) (c : Client) (s : Server)
      → s.heap p ≡ some c
      → c.is_queued ≡ false
      → c.is_subscribed ≡ false
      → is_transaction req.command ≡ false
      → handle outside req p s ≡ dispatch_utility outside req.command req p c s
  unfolding dispatch
  handle_plain req p c s at out alone plain =
      plain_dispatched (dispatch outside) 1 req p c s at out plain
      ∙ (after_load p _ c s at ∙ rw alone refl)

  file_off :
      (req : Request) (s : Server)
      → str_eq (upper s.config.append_only) (codes "YES") ≡ false
      → write_to_file files req s ≡ done (tt, s)
  unfolding write_to_file
  file_off req s off = rw off refl

  -- What follows a command that writes, while no append-only file is kept.
  pub writing_run :
      (handler : Exec (Unit {0})) (cmd : Command) (key : Bytes) (args : List Bytes) (i : ℕ)
      (s s₁ : Server)
      → handler s ≡ done (tt, s₁)
      → index_of key ≡ done i
      → AllLive s₁.heap (cells_at i s₁.watchers)
      → str_eq (upper s₁.config.append_only) (codes "YES") ≡ false
      → (heap : Heap) × (writing outside handler (record { command = cmd; args = key ∷ args }) s
          ≡ done (tt, record s₁ { heap = heap }))
        × ((q : Address)
            → heap q
              ≡ (if watches q (cells_at i s₁.watchers) then dirty (s₁.heap q) else s₁.heap q))
  unfolding writing
  writing_run handler cmd key args i s s₁ run at live off =
      let (heap, told, spread) = notify_watchers_lem key i s₁ at live in
      (
        heap,
        run_then handler _ s run
            ∙ (run_then (notify_watchers key) _ s₁ told
                ∙ file_off (record { command = cmd; args = key ∷ args }) (record s₁ { heap = heap })
                    off),
        spread,
      )
