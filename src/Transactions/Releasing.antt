-- ===== src/Transactions/Releasing.antt =====
-- What the end of a client's watches does to the watchers, and EXEC of a client that is marked.
use codecrafters_redis_c.Base.{
  ℕ, suc, ◌<◌, Bytes, codes, List, [], ◌∷◌, ◌++◌, map, Option, none, some, ◌≡◌, refl, sym, ap, ◌∙◌,
  arith, Bool, true, false, ◌||◌, if◌then◌else◌, ◌==◌, ==_iff, inl, inr, Bool-cases, Option-cases,
}
use codecrafters_redis_c.Outcome.{done, undefined}
use codecrafters_redis_c.Resp.Command.{Command}
use codecrafters_redis_c.Resp.Request.{Request}
use codecrafters_redis_c.Keyspace.Hash.{index_of}
use codecrafters_redis_c.Server.{Server, Client, Address}
use codecrafters_redis_c.Server.Exec.{Exec}
use codecrafters_redis_c.Transactions.Watch.{
  Watchers, watch_at, cells_at, cells_of, clear_cells, delete_watched_key, delete_all,
}
use codecrafters_redis_c.Transactions.Queue.{handle}
use codecrafters_redis_c.Transactions.Queueing.{handle_exec_dirty}

-- How often the client stands in the cells.
abbrev pub times : Address → List (Option Address) → ℕ
times p [] = 0
times p (none ∷ cells) = times p cells
times p (some q ∷ cells) = let n = times p cells in if p == q then suc n else n

-- Each key has an index, and the client stands at most once among the watchers of that index.
abbrev pub WatchedOnce : Address → List Bytes → Watchers → Type 0
WatchedOnce p [] watchers = Unit
WatchedOnce p (key ∷ keys) watchers =
    ((i : ℕ) × (index_of key ≡ done i) × (times p (cells_at i watchers) < 2))
    × WatchedOnce p keys watchers

-- Whether one of the keys has this index.
abbrev pub has_index : ℕ → List Bytes → Bool
has_index j [] = false
has_index j (key ∷ keys) =
    let rest = has_index j keys in
    elim (index_of key) [ done i ↦ (i == j) || rest | undefined ↦ rest ]

abbrev pub forget : Address → Option Address → Option Address
forget p none = none
forget p (some q) = if p == q then none else some q

abbrev pub forget_all : Address → Option (List (Option Address)) → Option (List (Option Address))
forget_all p none = none
forget_all p (some cells) = some (map (forget p) cells)

-- The client is forgotten at the indices of the keys, and nothing else is different.
abbrev pub Released : Address → List Bytes → Watchers → Watchers → Type 0
Released p keys watchers after =
    (j : ℕ) → after j ≡ (if has_index j keys then forget_all p (watchers j) else watchers j)

cells_of-times : (p : Address) (cells : List (Option Address)) → cells_of p cells ≡ times p cells
unfolding cells_of
cells_of-times p [] = refl
cells_of-times p (none ∷ cells) = cells_of-times p cells
cells_of-times p (some q ∷ cells) = ground (arith, cells_of-times p cells)

clear_cells-forget :
    (p : Address) (cells : List (Option Address)) → clear_cells p cells ≡ map (forget p) cells
unfolding clear_cells
clear_cells-forget p [] = refl
clear_cells-forget p (none ∷ cells) = ap (λ l. none ∷ l) (clear_cells-forget p cells)
clear_cells-forget p (some q ∷ cells) = rw (clear_cells-forget p cells) refl

times-forget : (p : Address) (cells : List (Option Address)) → times p (map (forget p) cells) ≡ 0
times-forget p [] = refl
times-forget p (none ∷ cells) = times-forget p cells
times-forget p (some q ∷ cells) = elim (Bool-cases (p == q)) [
  | inl same ↦ rw same (times-forget p cells)
  | inr apart ↦ rw apart (rw apart (times-forget p cells))
]

forget_twice :
    (p : Address) (cells : List (Option Address))
    → map (forget p) (map (forget p) cells) ≡ map (forget p) cells
forget_twice p [] = refl
forget_twice p (none ∷ cells) = ap (λ l. none ∷ l) (forget_twice p cells)
forget_twice p (some q ∷ cells) = elim (Bool-cases (p == q)) [
  | inl same ↦ rw same (ap (λ l. none ∷ l) (forget_twice p cells))
  | inr apart ↦ rw apart (rw apart (ap (λ l. some q ∷ l) (forget_twice p cells)))
]

once_kept :
    (p : Address) (i : ℕ) (cells : List (Option Address)) (keys : List Bytes) (watchers : Watchers)
    → WatchedOnce p keys watchers
    → WatchedOnce p keys (watch_at i (map (forget p) cells) watchers)
unfolding watch_at
once_kept p i cells [] watchers h = tt
once_kept p i cells (key ∷ keys) watchers ((k, at, few), h) = (
  (
    k,
    at,
    elim (Bool-cases (i == k)) [
      | inl same ↦ rw same (ground (arith, times-forget p cells))
      | inr apart ↦ rw apart few
    ],
  ),
  once_kept p i cells keys watchers h,
)

one_released :
    (p : Address) (key : Bytes) (i : ℕ) (cells : List (Option Address)) (watchers : Watchers)
    → index_of key ≡ done i
    → watchers i ≡ some cells
    → times p cells < 2
    → delete_watched_key p key watchers ≡ done (watch_at i (map (forget p) cells) watchers)
unfolding delete_watched_key
one_released p key i cells watchers at there few =
    ground (arith, at, there, few, cells_of-times p cells, clear_cells-forget p cells)

none_released :
    (p : Address) (key : Bytes) (i : ℕ) (watchers : Watchers)
    → index_of key ≡ done i
    → watchers i ≡ none
    → delete_watched_key p key watchers ≡ done watchers
unfolding delete_watched_key
none_released p key i watchers at gone = ground (arith, at, gone)

-- The end of the watches returns, and forgets the client.
pub delete_all-Released :
    (p : Address) (keys : List Bytes) (watchers : Watchers)
    → WatchedOnce p keys watchers
    → (after : Watchers) × (delete_all p keys watchers ≡ done after)
      × Released p keys watchers after
unfolding delete_all watch_at
delete_all-Released p [] watchers h = (watchers, refl, λ j. refl)
delete_all-Released p (key ∷ keys) watchers ((i, at, few), h) = elim (Option-cases (watchers i)) [
  | inl gone ↦
      let (after, run, spread) = delete_all-Released p keys watchers h in
      (
        after,
        rw (none_released p key i watchers at gone) run,
        λ j. elim (Bool-cases (i == j)) [
          | inl same ↦
              let here : watchers j ≡ none = ap watchers (sym ((==_iff i j).0 same)) ∙ gone in
              ground (arith, spread j, at, same, here)
          | inr apart ↦ ground (arith, spread j, at, apart)
        ],
      )
  | inr (cells, there) ↦
      let few' : times p cells < 2 = ground (arith, few, there) in
      let first = one_released p key i cells watchers at there few' in
      let (after, run, spread) =
        delete_all-Released p keys (watch_at i (map (forget p) cells) watchers)
          (once_kept p i cells keys watchers h) in
      (
        after,
        rw first run,
        λ j. elim (Bool-cases (i == j)) [
          | inl same ↦
              let here : watchers j ≡ some cells =
                ap watchers (sym ((==_iff i j).0 same)) ∙ there in
              ground (arith, spread j, at, same, here, forget_twice p cells)
          | inr apart ↦ ground (arith, spread j, at, apart)
        ],
      )
]

-- EXEC from a client in MULTI that is marked as dirty runs none of the queued requests and returns,
-- when each watched key has an index and the client stands at most once among the watchers of that
-- index: the client gets the null array, leaves MULTI with an empty queue and watches no key, and
-- at the indices of the keys that it watched, and nowhere else, its places among the watchers
-- become NULL.
pub handle_exec_aborts :
    (dispatch : Request → Address → Exec (Unit {0})) (depth : ℕ) (req : Request) (p : Address)
    (c : Client) (s : Server)
    → req.command ≡ Command.exec
    → s.heap p ≡ some c
    → c.is_queued ≡ true
    → c.is_dirty ≡ true
    → WatchedOnce p c.watch_keys s.watchers
    → (watchers : Watchers) × (handle dispatch (suc depth) req p s
        ≡ done (
          tt,
          record s {
            watchers = watchers;
            heap = λ q.
                if p == q
                then some (record c {
                  is_queued = false;
                  requests = [];
                  watch_keys = [];
                  is_dirty = false;
                })
                else s.heap q;
            sent = s.sent ++ (c.fd, codes "*-1\r\n") ∷ [];
          },
        ))
      × Released p c.watch_keys s.watchers watchers
handle_exec_aborts dispatch depth req p c s command at queued dirty once =
    let (watchers, run, spread) = delete_all-Released p c.watch_keys s.watchers once in
    (
      watchers,
      handle_exec_dirty dispatch depth req p c watchers s command at queued dirty run,
      spread,
    )
