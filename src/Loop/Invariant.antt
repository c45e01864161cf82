-- ===== src/Loop/Invariant.antt =====
-- The arrays of the event loop stay in order: an invariant of accepted and closed connections.
use codecrafters_redis_c.Base.{
  ℕ, ◌+◌, ◌<◌, ◌≤◌, ℤ, List, none, some, length, length-set, get_elem?, get_elem?-set_self,
  get_elem?-set_ne, set, ◌==◌, ==_iff, ◌≡◌, ◌≢◌, refl, ◌∙◌, arith, if◌then◌else◌, inl, inr,
  Bool-cases,
}
use codecrafters_redis_c.Server.{Client, Address}
use codecrafters_redis_c.Loop.Connections.{LoopState, new_client}

-- What a read after a write in bounds gives.
pub get_elem?-set {ℓ} :
    {A : Type ℓ} (xs : List A) (i j : ℕ) (v : A)
    → i < length xs
    → get_elem? (set xs i v) j ≡ (if i == j then some v else get_elem? xs j)
get_elem?-set xs i j v h = elim (Bool-cases (i == j)) [
  | inl same ↦ rw same (rw (← (==_iff i j).0 same) (get_elem?-set_self xs i v h))
  | inr apart ↦ rw apart (get_elem?-set_ne xs v (λ e. ground (arith, apart, (==_iff i j).1 e)))
]

-- The cells from 1 up to `active` hold allocated clients, each at one place and with its file
-- descriptor at the same index of `watch_list`; all the cells behind them are NULL.
pub record IsInOrder (limit : ℕ) (l : LoopState) : Type 0 where
  pub cells : length l.server.clients ≡ limit
  pub fds : length l.watch ≡ limit
  pub first : 0 < l.active
  pub bound : l.active ≤ limit
  pub used :
      (i : ℕ)
      → 0 < i
      → i < l.active
      → (p : Address) × (get_elem? l.server.clients i ≡ some (some p))
  pub unused : (i : ℕ) → l.active ≤ i → i < limit → get_elem? l.server.clients i ≡ some none
  pub live :
      (i : ℕ) (p : Address)
      → get_elem? l.server.clients i ≡ some (some p)
      → (c : Client) × (l.server.heap p ≡ some c) × (get_elem? l.watch i ≡ some c.fd)
  pub unique :
      (i j : ℕ) (p : Address)
      → get_elem? l.server.clients i ≡ some (some p)
      → get_elem? l.server.clients j ≡ some (some p)
      → i ≡ j

module _ (limit : ℕ) (fd : ℤ) (p : Address) (l : LoopState) (ok : IsInOrder limit l)
    (fresh : l.server.heap p ≡ none) (room : l.active < limit) where
  cells_after :
      (j : ℕ)
      → get_elem? (set l.server.clients l.active (some p)) j
        ≡ (if l.active == j then some (some p) else get_elem? l.server.clients j)
  cells_after j = get_elem?-set l.server.clients l.active j (some p) (omega (arith, ok.cells, room))

  not_there : (j : ℕ) → get_elem? l.server.clients j ≢ some (some p)
  not_there j at = let (c, found, _) = ok.live j p at in ground (arith, found, fresh)

  live_after :
      (j : ℕ) (q : Address)
      → get_elem? (set l.server.clients l.active (some p)) j ≡ some (some q)
      → (c : Client) × ((if p == q then some (new_client fd) else l.server.heap q) ≡ some c)
        × (get_elem? (set l.watch l.active fd) j ≡ some c.fd)
  live_after j q at =
      let watched = get_elem?-set l.watch l.active j fd (omega (arith, ok.fds, room)) in
      elim (Bool-cases (l.active == j)) [
        | inl same ↦
            let e : p ≡ q = ground (arith, at, cells_after j, same) in
            (new_client fd, rw ((==_iff p q).1 e) refl, watched ∙ rw same refl)
        | inr apart ↦
            let old : get_elem? l.server.clients j ≡ some (some q) =
              ground (arith, at, cells_after j, apart) in
            let (c, found, w) = ok.live j q old in
            (c, ground (arith, found, fresh, ==_iff p q), watched ∙ rw apart w)
      ]

  unique_after :
      (i j : ℕ) (q : Address)
      → get_elem? (set l.server.clients l.active (some p)) i ≡ some (some q)
      → get_elem? (set l.server.clients l.active (some p)) j ≡ some (some q)
      → i ≡ j
  unique_after i j q at at' =
      ground
        (arith, at, at', cells_after i, cells_after j, not_there i, not_there j, ok.unique i j q)

  used_after :
      (i : ℕ)
      → 0 < i
      → i < l.active + 1
      → (q : Address) × (get_elem? (set l.server.clients l.active (some p)) i ≡ some (some q))
  used_after i h b = elim (Bool-cases (l.active == i)) [
    | inl same ↦ (p, cells_after i ∙ rw same refl)
    | inr apart ↦
        let (q, at) = ok.used i h (ground (arith, apart, b)) in (q, cells_after i ∙ rw apart at)
  ]

  pub accept-IsInOrder : IsInOrder limit (record {
    server = record l.server {
      clients = set l.server.clients l.active (some p);
      heap = λ q. if p == q then some (new_client fd) else l.server.heap q;
    };
    active = l.active + 1;
    watch = set l.watch l.active fd;
  })
  accept-IsInOrder = record {
    cells = length-set l.server.clients l.active (some p) ∙ ok.cells;
    fds = length-set l.watch l.active fd ∙ ok.fds;
    first = omega arith;
    bound = omega (arith, room);
    used = used_after;
    unused = λ i h b. cells_after i ∙ ground (arith, ok.unused i (omega (arith, h)) b, h);
    live = live_after;
    unique = unique_after;
  }
