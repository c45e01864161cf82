-- ===== src/Transactions/Watch.antt =====
-- The watched keys: `delete_watched_keys`, `handle_watch`, `handle_unwatch` of
-- src/transaction_handler.c, and `notify_watchers` of src/handler.c.
use codecrafters_redis_c.Base.{
  ℕ, ◌+◌, Bytes, codes, List, [], ◌∷◌, ◌++◌, Option, none, some, true, false, length, ltb, leb,
  ◌==◌, if◌then◌else◌,
}
use codecrafters_redis_c.Outcome
use codecrafters_redis_c.Outcome.{Outcome, done, undefined, require}
use codecrafters_redis_c.Resp.Request.{Request}
use codecrafters_redis_c.Keyspace.Hash.{index_of}
use codecrafters_redis_c.Server.{Address}
use codecrafters_redis_c.Server.Exec.{Exec, ◌>>=◌, ◌>>◌, pure, lift, gets, send, load, store}

abbrev pub Watchers : Type 0
Watchers = ℕ → Option (List (Option Address))

unfoldable pub watch_at : ℕ → List (Option Address) → Watchers → Watchers
watch_at i cells watchers = λ j. if i == j then some cells else watchers j

-- How many cells point to the client.
unfoldable pub cells_of : Address → List (Option Address) → ℕ
cells_of p [] = 0
cells_of p (none ∷ cells) = cells_of p cells
cells_of p (some q ∷ cells) = (if p == q then 1 else 0) + cells_of p cells

-- The cells that point to the client become NULL.
unfoldable pub clear_cells : Address → List (Option Address) → List (Option Address)
clear_cells p [] = []
clear_cells p (none ∷ cells) = none ∷ clear_cells p cells
clear_cells p (some q ∷ cells) = (if p == q then none else some q) ∷ clear_cells p cells

-- One round over `watch_keys`: the key is freed once for each cell that points to the client, and a
-- second time is undefined.
unfoldable pub delete_watched_key : Address → Bytes → Watchers → Outcome Watchers
unfolding cells_of clear_cells
delete_watched_key p key watchers = Outcome.◌>>=◌ (index_of key) λ i. elim (watchers i) [
  | none ↦ done watchers
  | some cells ↦
      if leb (cells_of p cells) 1
      then done (watch_at i (clear_cells p cells) watchers)
      else undefined
]

unfoldable pub delete_all : Address → List Bytes → Watchers → Outcome Watchers
unfolding delete_watched_key
delete_all p [] watchers = done watchers
delete_all p (key ∷ keys) watchers =
    Outcome.◌>>=◌ (delete_watched_key p key watchers) λ w. delete_all p keys w

abbrev pub to_watchers : (Watchers → Outcome Watchers) → Exec (Unit {0})
to_watchers f s = elim (f s.watchers) [
  | done w ↦ done (tt, record s { watchers = w })
  | undefined ↦ undefined
]

unfoldable pub delete_watched_keys : Address → Exec (Unit {0})
unfolding delete_all
delete_watched_keys p = do
  c ← load p
  to_watchers (delete_all p c.watch_keys)
  store p (record c { watch_keys = []; is_dirty = false })

abbrev pub listed : Option (List (Option Address)) → List (Option Address)
listed none = []
listed (some cells) = cells

-- The cells of an index; the record is allocated at the first use.
abbrev pub cells_at : ℕ → Watchers → List (Option Address)
cells_at i watchers = listed (watchers i)

-- `clientList` has MAX_CLIENTS cells.
unfoldable pub add_watcher : Address → Bytes → Watchers → Outcome Watchers
add_watcher p key watchers = Outcome.◌>>=◌ (index_of key) λ i.
    if ltb (length (cells_at i watchers)) 100
    then done (watch_at i (cells_at i watchers ++ some p ∷ []) watchers)
    else undefined

-- One round over the arguments of WATCH; `watch_keys` has 64 cells.
unfoldable pub watch_key : Address → Bytes → Exec (Unit {0})
unfolding add_watcher
watch_key p key = do
  c ← load p
  lift (require (ltb (length c.watch_keys) 64))
  store p (record c { watch_keys = c.watch_keys ++ key ∷ [] })
  to_watchers (add_watcher p key)

unfoldable pub watch_all : Address → List Bytes → Exec (Unit {0})
unfolding watch_key
watch_all p [] = pure tt
watch_all p (key ∷ keys) = do watch_key p key; watch_all p keys

unfoldable pub handle_watch : Request → Address → Exec (Unit {0})
unfolding watch_all
handle_watch req p = if ltb (length req.args) 1 then pure tt else (do
  c ← load p
  if c.is_queued
      then send c.fd (codes "-ERR WATCH inside MULTI is not allowed\r\n")
      else (do watch_all p req.args; send c.fd (codes "+OK\r\n")))

unfoldable pub handle_unwatch : Address → Exec (Unit {0})
unfolding delete_watched_keys
handle_unwatch p = do delete_watched_keys p; c ← load p; send c.fd (codes "+OK\r\n")

unfoldable pub mark_dirty : List (Option Address) → Exec (Unit {0})
mark_dirty [] = pure tt
mark_dirty (none ∷ cells) = mark_dirty cells
mark_dirty (some p ∷ cells) = do
  c ← load p
  store p (record c { is_dirty = true })
  mark_dirty cells

unfoldable pub notify_watchers : Bytes → Exec (Unit {0})
unfolding mark_dirty
notify_watchers key = do
  i ← lift (index_of key)
  watchers ← gets (λ s. s.watchers)
  mark_dirty (cells_at i watchers)
