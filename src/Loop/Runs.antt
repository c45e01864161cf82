-- ===== src/Loop/Runs.antt =====
-- Sequences of accepted and closed connections.
use mathlib.Core.Path.{subst}
use codecrafters_redis_c.Base.{
  ℕ, zero, suc, ◌-◌, ◌<◌, ℤ, Option, some, ltb, get_elem?, ◌≡◌, refl, arith, inl, inr, Bool-cases,
}
use codecrafters_redis_c.Outcome.{done}
use codecrafters_redis_c.Server.{Address}
use codecrafters_redis_c.Loop.Connections.{
  LoopState, accept_client, take_place, close_client, ConnectionStep, accepted, closed,
}
use codecrafters_redis_c.Loop.Invariant.{IsInOrder, accept-IsInOrder}
use codecrafters_redis_c.Loop.Closing.{close-IsInOrder}

closing :
    (i k : ℕ) (cell last : Option Address) (fd : ℤ) (l : LoopState)
    → l.active ≡ suc k
    → get_elem? l.server.clients i ≡ some cell
    → get_elem? l.server.clients k ≡ some last
    → get_elem? l.watch k ≡ some fd
    → close_client i l ≡ done (take_place i k cell last fd l)
unfolding close_client
closing i k cell last fd l active at_i at_k watched =
    let before : l.active - 1 ≡ k = omega (arith, active) in
    rw before (ground (arith, at_i, at_k, watched))

-- The end of a connection that is in use is always defined.
close_run :
    (limit i k : ℕ) (l : LoopState)
    → IsInOrder limit l
    → l.active ≡ suc k
    → 0 < i
    → i < suc k
    → (l' : LoopState) × (close_client i l ≡ done l') × IsInOrder limit l'
close_run limit i k l ok active positive inside =
    let (p, at_i) = ok.used i positive (omega (arith, active, inside)) in
    let (q, at_k) = ok.used k (omega (arith, positive, inside)) (omega (arith, active)) in
    let (c, found, watched) = ok.live k q at_k in
    (
      take_place i k (some p) (some q) c.fd l,
      closing i k (some p) (some q) c.fd l active at_i at_k watched,
      close-IsInOrder limit i k p q l ok c.fd active inside positive at_i at_k watched,
    )

-- A state of the connections that the invariant holds of has a last index.
last_index : (n : ℕ) → 0 < n → (k : ℕ) × (n ≡ suc k)
last_index zero h = absurd (omega arith)
last_index (suc k) h = (k, refl)

-- An accepted connection keeps the invariant, and so does the end of one.
step-IsInOrder :
    (limit : ℕ) (l l' : LoopState)
    → ConnectionStep limit l l'
    → IsInOrder limit l
    → IsInOrder limit l'
unfolding accept_client
step-IsInOrder limit _ _ (accepted fd p l fresh) ok = elim (Bool-cases (ltb l.active limit)) [
  | inl room ↦ rw room (accept-IsInOrder limit fd p l ok fresh (ground (arith, room)))
  | inr full ↦ rw full ok
]
step-IsInOrder limit _ _ (closed i l l' positive inside run) ok =
    let (k, active) = last_index l.active ok.first in
    let (m, e, kept) = close_run limit i k l ok active positive (omega (arith, inside, active)) in
    let same : m ≡ l' = cc (e, run) in subst (IsInOrder limit) same kept

-- Any number of steps.
pub data Runs (limit : ℕ) : LoopState → LoopState → Type 0 where
  stop : (l : LoopState) → Runs limit l l
  step : (l m n : LoopState) → ConnectionStep limit l m → Runs limit m n → Runs limit l n

-- After any sequence of accepted and closed connections, the cells of `clients` from 1 up to
-- `active_fds` hold allocated clients, each in one place and with its file descriptor at the same
-- index of `watch_list`; the cells behind them are NULL, and there are at most `limit` in use, if
-- this holds at first. For an accepted connection `calloc` gives an address that is not in use.
pub Runs-IsInOrder :
    (limit : ℕ) (l l' : LoopState) → Runs limit l l' → IsInOrder limit l → IsInOrder limit l'
Runs-IsInOrder limit _ _ (stop l) ok = ok
Runs-IsInOrder limit _ _ (step l m l' s run) ok =
    Runs-IsInOrder limit m l' run (step-IsInOrder limit l m s ok)
