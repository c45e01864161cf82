-- ===== src/Transactions/Watching.antt =====
-- WATCH, writes to a watched key, and the end of a watch.
use mathlib.Core.Path.{subst}
use codecrafters_redis_c.Base.{
  ℕ, ◌<◌, Bytes, codes, List, [], ◌∷◌, ◌++◌, Option, none, some, ◌≡◌, refl, sym, ap, ◌∙◌, arith,
  Bool, true, false, ◌||◌, length, ◌==◌, ==_refl, if◌then◌else◌, inl, inr, Bool-cases, Option-cases,
}
use codecrafters_redis_c.Outcome.{done, undefined}
use codecrafters_redis_c.Resp.Command.{Command}
use codecrafters_redis_c.Keyspace.Hash.{index_of}
use codecrafters_redis_c.Server.{Server, Client, Address, Heap}
use codecrafters_redis_c.Server.Exec.{◌>>◌}
use codecrafters_redis_c.Transactions.Watch.{
  Watchers, watch_at, listed, cells_at, cells_of, delete_watched_key, delete_all,
  delete_watched_keys, add_watcher, watch_key, watch_all, handle_watch, handle_unwatch, mark_dirty,
  notify_watchers,
}

-- Every cell that is not NULL points to an allocated client.
abbrev pub AllLive : Heap → List (Option Address) → Type 0
AllLive heap [] = Unit
AllLive heap (none ∷ cells) = AllLive heap cells
AllLive heap (some p ∷ cells) = ((c : Client) × (heap p ≡ some c)) × AllLive heap cells

-- Whether a cell points to the client.
abbrev pub watches : Address → List (Option Address) → Bool
watches p [] = false
watches p (none ∷ cells) = watches p cells
watches p (some q ∷ cells) = (q == p) || watches p cells

abbrev pub dirty : Option Client → Option Client
dirty none = none
dirty (some c) = some (record c { is_dirty = true })

pub live_kept :
    (heap : Heap) (p : Address) (c : Client) (cells : List (Option Address))
    → AllLive heap cells
    → AllLive (λ q. if p == q then some c else heap q) cells
live_kept heap p c [] live = tt
live_kept heap p c (none ∷ cells) live = live_kept heap p c cells live
live_kept heap p c (some q ∷ cells) ((d, at), live) = (
  elim (Bool-cases (p == q)) [ inl same ↦ (c, rw same refl) | inr other ↦ (d, rw other at) ],
  live_kept heap p c cells live,
)

-- When no watcher was freed, the writes to `is_dirty` reach the watching clients and no others.
pub mark_dirty_lem :
    (cells : List (Option Address)) (s : Server)
    → AllLive s.heap cells
    → (heap : Heap) × (mark_dirty cells s ≡ done (tt, record s { heap = heap }))
      × ((q : Address) → heap q ≡ (if watches q cells then dirty (s.heap q) else s.heap q))
unfolding mark_dirty
mark_dirty_lem [] s live = (s.heap, refl, λ q. refl)
mark_dirty_lem (none ∷ cells) s live = mark_dirty_lem cells s live
mark_dirty_lem (some p ∷ cells) s ((c, at), live) =
    let marked : Client = record c { is_dirty = true } in
    let s' : Server = record s { heap = λ q. if p == q then some marked else s.heap q } in
    let (heap, run, spread) = mark_dirty_lem cells s' (live_kept s.heap p marked cells live) in
    (heap, ground (arith, at, run), λ q. ground (arith, spread q, at))

-- A write to a key whose watchers are all allocated returns; it marks the clients that watch a key of
-- the same index as dirty, and changes nothing else.
pub notify_watchers_lem :
    (key : Bytes) (i : ℕ) (s : Server)
    → index_of key ≡ done i
    → AllLive s.heap (cells_at i s.watchers)
    → (heap : Heap) × (notify_watchers key s ≡ done (tt, record s { heap = heap }))
      × ((q : Address)
          → heap q ≡ (if watches q (cells_at i s.watchers) then dirty (s.heap q) else s.heap q))
unfolding notify_watchers
notify_watchers_lem key i s at live = rw at (mark_dirty_lem (cells_at i s.watchers) s live)

-- A write to a key that a freed client watches is undefined.
pub mark_dirty_dangling :
    (p : Address) (cells : List (Option Address)) (s : Server)
    → s.heap p ≡ none
    → watches p cells ≡ true
    → mark_dirty cells s ≡ undefined
unfolding mark_dirty
mark_dirty_dangling p [] s freed w = ground (arith, w)
mark_dirty_dangling p (none ∷ cells) s freed w = mark_dirty_dangling p cells s freed w
mark_dirty_dangling p (some q ∷ cells) s freed w = elim (Option-cases (s.heap q)) [
  | inl gone ↦ ground (arith, gone)
  | inr (c, at) ↦
      let marked : Client = record c { is_dirty = true } in
      let s' : Server = record s { heap = λ r. if q == r then some marked else s.heap r } in
      elim (Bool-cases (q == p)) [
        | inl same ↦ ground (arith, same, at, freed)
        | inr other ↦
            ground (
              arith,
              at,
              mark_dirty_dangling p cells s' (rw other freed) (ground (arith, other, w)),
            )
      ]
]

-- WATCH of one key, from a client outside MULTI with room for one more key, while the index of the key
-- has room for one more watcher, returns; the client gets `+OK`, and from then on a write to the key
-- finds the client among the watchers.
pub handle_watch_one :
    (cmd : Command) (key : Bytes) (i : ℕ) (p : Address) (c : Client) (s : Server)
    → s.heap p ≡ some c
    → c.is_queued ≡ false
    → index_of key ≡ done i
    → length c.watch_keys < 64
    → length (cells_at i s.watchers) < 100
    → handle_watch (record { command = cmd; args = key ∷ [] }) p s
      ≡ done (
        tt,
        record s {
          heap = λ q.
              if p == q
              then some (record c { watch_keys = c.watch_keys ++ key ∷ [] })
              else s.heap q;
          watchers = watch_at i (cells_at i s.watchers ++ some p ∷ []) s.watchers;
          sent = s.sent ++ (c.fd, codes "+OK\r\n") ∷ [];
        },
      )
unfolding handle_watch watch_all watch_key add_watcher
handle_watch_one cmd key i p c s at out h room places = ground (arith, at, out, h, room, places)

watches-append :
    (p : Address) (cells : List (Option Address)) → watches p (cells ++ some p ∷ []) ≡ true
watches-append p [] = ground (arith, ==_refl p)
watches-append p (none ∷ cells) = watches-append p cells
watches-append p (some q ∷ cells) = ground (arith, watches-append p cells)

live-append :
    (heap : Heap) (p : Address) (c : Client) (cells : List (Option Address))
    → heap p ≡ some c
    → AllLive heap cells
    → AllLive heap (cells ++ some p ∷ [])
live-append heap p c [] at live = ((c, at), tt)
live-append heap p c (none ∷ cells) at live = live-append heap p c cells at live
live-append heap p c (some q ∷ cells) at (first, live) = (first, live-append heap p c cells at live)

watch_at_same :
    (i : ℕ) (cells : List (Option Address)) (watchers : Watchers)
    → watch_at i cells watchers i ≡ some cells
unfolding watch_at
watch_at_same i cells watchers = rw (==_refl i) refl

cells_at-watch_at :
    (i : ℕ) (cells : List (Option Address)) (watchers : Watchers)
    → cells_at i (watch_at i cells watchers) ≡ cells
cells_at-watch_at i cells watchers = ap listed (watch_at_same i cells watchers)

-- The state after such a WATCH.
abbrev pub watching_server : Bytes → ℕ → Address → Client → Server → Server
watching_server key i p c s = record s {
  heap =
      λ q. if p == q then some (record c { watch_keys = c.watch_keys ++ key ∷ [] }) else s.heap q;
  watchers = watch_at i (cells_at i s.watchers ++ some p ∷ []) s.watchers;
  sent = s.sent ++ (c.fd, codes "+OK\r\n") ∷ [];
}

-- All watchers of the index are still allocated.
pub watching_live :
    (key : Bytes) (i : ℕ) (p : Address) (c : Client) (s : Server)
    → AllLive s.heap (cells_at i s.watchers)
    → AllLive (watching_server key i p c s).heap (cells_at i (watching_server key i p c s).watchers)
watching_live key i p c s live =
    let watching : Client = record c { watch_keys = c.watch_keys ++ key ∷ [] } in
    let s₁ = watching_server key i p c s in
    subst (AllLive s₁.heap)
      (sym (cells_at-watch_at i (cells_at i s.watchers ++ some p ∷ []) s.watchers))
      (live-append s₁.heap p watching (cells_at i s.watchers) (rw (==_refl p) refl)
        (live_kept s.heap p watching (cells_at i s.watchers) live))

-- The client is among them.
pub watching_watches :
    (key : Bytes) (i : ℕ) (p : Address) (c : Client) (s : Server)
    → watches p (cells_at i (watching_server key i p c s).watchers) ≡ true
watching_watches key i p c s =
    ap (watches p) (cells_at-watch_at i (cells_at i s.watchers ++ some p ∷ []) s.watchers)
    ∙ watches-append p (cells_at i s.watchers)

double_free :
    (key : Bytes) (i : ℕ) (p : Address) (watchers : Watchers)
    → index_of key ≡ done i
    → watchers i ≡ some (some p ∷ some p ∷ [])
    → delete_all p (key ∷ key ∷ []) watchers ≡ undefined
unfolding delete_all delete_watched_key cells_of
double_free key i p watchers h twice = ground (arith, h, twice, ==_refl p)

-- WATCH of one key twice in one command, by a client outside MULTI that watches no key, at an index
-- without watchers, and then UNWATCH is undefined: the two cells of the index make it free the key
-- twice.
pub handle_watch_twice :
    (cmd : Command) (key : Bytes) (i : ℕ) (p : Address) (c : Client) (s : Server)
    → s.heap p ≡ some c
    → c.is_queued ≡ false
    → c.watch_keys ≡ []
    → index_of key ≡ done i
    → s.watchers i ≡ none
    → (handle_watch (record { command = cmd; args = key ∷ key ∷ [] }) p >> handle_unwatch p) s
      ≡ undefined
unfolding handle_watch watch_all watch_key add_watcher handle_unwatch delete_watched_keys
handle_watch_twice cmd key i p c s at out keys h fresh =
    let w₁ : Watchers = watch_at i (some p ∷ []) s.watchers in
    let w₂ : Watchers = watch_at i (some p ∷ some p ∷ []) w₁ in
    ground (
      arith,
      at,
      out,
      keys,
      h,
      fresh,
      ==_refl p,
      watch_at_same i (some p ∷ []) s.watchers,
      double_free key i p w₂ h (watch_at_same i (some p ∷ some p ∷ []) w₁),
    )
