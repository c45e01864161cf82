-- ===== src/Loop/Timers.antt =====
-- What each turn of the loop of `main` of src/main.c does before it looks at the sockets: the time
-- limits of XREAD and BLPOP, and the end of WAIT.
use codecrafters_redis_c.Base.{
  ℕ, ℤ, pos, negsuc, eqb_ℤ, leb_ℤ, codes, List, [], ◌∷◌, Option, none, some, Bool, false, not, ◌&&◌,
  ◌||◌, if◌then◌else◌,
}
use codecrafters_redis_c.Server.{Client, Address}
use codecrafters_redis_c.Server.Exec.{Exec, ◌>>=◌, ◌>>◌, pure, gets, send, load, store}
use codecrafters_redis_c.Outcome.{undefined}
use codecrafters_redis_c.Lists.Blocking.{handle_endblpop}
use codecrafters_redis_c.Replication.Commands.{set_config, count_caught_up, count_reply}

-- A time limit that is set and has passed.
abbrev pub limit_passed : ℕ → Client → Bool
limit_passed now c = not (eqb_ℤ c.timeout_at (pos 0)) && leb_ℤ c.timeout_at (pos now)

-- A client whose XREAD has waited long enough.
unfoldable pub xread_expired : ℕ → Client → Bool
xread_expired now c =
    c.is_blocked
    && (limit_passed now c && (not c.is_replica && (not c.is_waiting && not c.is_blpop)))

-- `fd` is that of the same index of `watch_list`.
unfoldable pub expire_client : ℕ → Option Address → ℤ → Exec (Unit {0})
unfolding xread_expired
expire_client now none fd = pure tt
expire_client now (some p) fd = do
  c ← load p
  if xread_expired now c
      then (do send fd (codes "*-1\r\n"); store p (record c { is_blocked = false }))
      else pure tt

-- The loop over the clients, from index 1 to the last one in use.
unfoldable pub expire_clients : ℕ → List (Option Address) → List ℤ → Exec (Unit {0})
unfolding expire_client handle_endblpop
expire_clients now [] fds = pure tt
expire_clients now (cell ∷ cells) [] = pure tt
expire_clients now (cell ∷ cells) (fd ∷ fds) = do
  expire_client now cell fd
  handle_endblpop cell
  expire_clients now cells fds

-- Whether the client that waits in WAIT has waited long enough.
unfoldable pub wait_expired : ℤ → ℕ → List (Option Address) → Exec Bool
wait_expired fd now [] = pure false
wait_expired fd now (none ∷ cells) = wait_expired fd now cells
wait_expired fd now (some p ∷ cells) = do
  c ← load p
  later ← wait_expired fd now cells
  pure ((eqb_ℤ c.fd fd && limit_passed now c) || later)

-- The last loop of WAIT: only the write to `is_blocked` is under its test.
unfoldable pub release_waiting : ℤ → List (Option Address) → Exec (Unit {0})
release_waiting fd [] = pure tt
release_waiting fd (none ∷ cells) = λ s. undefined
release_waiting fd (some p ∷ cells) = do
  c ← load p
  store p
      (record c { is_blocked = if eqb_ℤ c.fd fd then false else c.is_blocked; is_waiting = false })
  release_waiting fd cells

-- `used` are the cells from index 1 to the last one in use.
unfoldable pub finish_wait : ℕ → List (Option Address) → Exec (Unit {0})
unfolding count_caught_up count_reply wait_expired release_waiting
finish_wait now used = do
  config ← gets (λ s. s.config)
  if eqb_ℤ config.wait_client_fd (negsuc 0) then pure tt else (do
    cells ← gets (λ s. s.clients)
    count ← count_caught_up config.captured_master_offset cells
    timed_out ← wait_expired config.wait_client_fd now used
    if leb_ℤ config.wanted_replicas (pos count) || timed_out
        then (do
          send config.wait_client_fd (count_reply count)
          release_waiting config.wait_client_fd used
          set_config (record config { wait_client_fd = negsuc 0 }))
        else pure tt)
