-- ===== src/Server/Exec.antt =====
-- Code that reads and writes the server's state: what it calls of the system, and its access to the
-- globals and to the objects behind pointers.
use codecrafters_redis_c.Base.{
  ℕ, suc, ℤ, Bytes, [], ◌∷◌, ◌++◌, none, some, ◌==◌, if◌then◌else◌, get_elem?, take, ◌≡◌, ap, ◌-◌,
}
use codecrafters_redis_c.Outcome.{Outcome, done, undefined, deref}
use codecrafters_redis_c.Resp.Request.{Request}
use codecrafters_redis_c.Keyspace.{Table}
use codecrafters_redis_c.Server.{Server, Client, Address}

abbrev pub Exec : Type 0 → Type 0
Exec A = Server → Outcome (A × Server)

infixl 5 ◌>>=◌ ◌>>◌
abbrev pub ◌>>=◌ : {A B : Type 0} → Exec A → (A → Exec B) → Exec B
◌>>=◌ m f s = elim (m s) [ done (a, s') ↦ f a s' | undefined ↦ undefined ]

abbrev pub ◌>>◌ : {B : Type 0} → Exec (Unit {0}) → Exec B → Exec B
m >> k = m >>= λ _. k

abbrev pub pure : {A : Type 0} → A → Exec A
pure a s = done (a, s)

abbrev pub lift : {A : Type 0} → Outcome A → Exec A
lift o s = elim o [ done a ↦ done (a, s) | undefined ↦ undefined ]

abbrev pub gets : {A : Type 0} → (Server → A) → Exec A
gets f s = done (f s, s)

-- send(fd, text, …): what it returns is used nowhere.
abbrev pub send : ℤ → Bytes → Exec (Unit {0})
send fd text s = done (tt, record s { sent = s.sent ++ (fd, text) ∷ [] })

-- The C string that `snprintf(buf, size, …)` leaves in `buf`.
abbrev pub formatted : ℕ → Bytes → Bytes
formatted size text = take (size - 1) text

abbrev pub get_current_time_ms : Exec ℕ
get_current_time_ms s = done (s.clock 0, record s { clock = λ n. s.clock (suc n) })

-- A lookup in the table, or another use of it that leaves it alone.
abbrev pub from_table : {A : Type 0} → (Table → Outcome A) → Exec A
from_table f s = lift (f s.table) s

abbrev pub to_table : (Table → Outcome Table) → Exec (Unit {0})
to_table f s = elim (f s.table) [
  | done t ↦ done (tt, record s { table = t })
  | undefined ↦ undefined
]

-- The object behind a `Client *`, while it is allocated.
abbrev pub load : Address → Exec Client
load p s = lift (deref (s.heap p)) s

abbrev pub store : Address → Client → Exec (Unit {0})
store p c s = elim (s.heap p) [
  | none ↦ undefined
  | some _ ↦ done (tt, record s { heap = λ q. if p == q then some c else s.heap q })
]

-- req->args[i]: a place that was not filled holds NULL.
abbrev pub arg : Request → ℕ → Exec Bytes
arg req i = lift (deref (get_elem? req.args i))

-- What follows a computation that returns runs on the state it leaves.
pub run_then :
    (m k : Exec (Unit {0})) (s : Server) {s' : Server} → m s ≡ done (tt, s') → (m >> k) s ≡ k s'
run_then m k s e =
    ap (λ (o : Outcome (Unit {0} × Server)). elim o [ done (_, s') ↦ k s' | undefined ↦ undefined ])
      e

-- The same for a computation whose result is used.
pub bind_run :
    {A B : Type 0} (m : Exec A) (f : A → Exec B) (s : Server) {a : A} {s' : Server}
    → m s ≡ done (a, s')
    → (m >>= f) s ≡ f a s'
bind_run {A} m f s e =
    ap (λ (o : Outcome (A × Server)). elim o [ done (a, s') ↦ f a s' | undefined ↦ undefined ]) e
