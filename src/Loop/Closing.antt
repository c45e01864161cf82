-- ===== src/Loop/Closing.antt =====
-- A closed connection keeps the arrays of the event loop in order.
use codecrafters_redis_c.Base.{
  ℕ, suc, ◌<◌, ℤ, negsuc, List, none, some, length, length-set, get_elem?, set, ◌==◌, ==_iff, ◌≡◌,
  ◌≢◌, refl, sym, ap, ◌∙◌, arith, if◌then◌else◌, inl, inr, Bool-cases,
}
use codecrafters_redis_c.Server.{Client, Address}
use codecrafters_redis_c.Loop.Connections.{LoopState}
use codecrafters_redis_c.Loop.Invariant.{get_elem?-set, IsInOrder}

-- The clients after the end of the connection at `i`, where `k` is the last index in use.
abbrev pub moved {ℓ} : {A : Type ℓ} → List A → ℕ → ℕ → A → A → List A
moved xs i k last empty = set (set xs i last) k empty

get_elem?-moved {ℓ} :
    {A : Type ℓ} (xs : List A) (i k j : ℕ) (last empty : A)
    → i < length xs
    → k < length xs
    → get_elem? (moved xs i k last empty) j
      ≡ (if k == j then some empty else if i == j then some last else get_elem? xs j)
get_elem?-moved xs i k j last empty hi hk =
    get_elem?-set (set xs i last) k j empty (omega (arith, length-set xs i last, hk))
    ∙ rw (get_elem?-set xs i j last hi) refl

module _ (limit i k : ℕ) (p q : Address) (l : LoopState) (ok : IsInOrder limit l) (fd : ℤ)
    (active : l.active ≡ suc k) (inside : i < suc k) (positive : 0 < i)
    (at_i : get_elem? l.server.clients i ≡ some (some p))
    (at_k : get_elem? l.server.clients k ≡ some (some q))
    (watched : get_elem? l.watch k ≡ some fd) where
  cells_after :
      (j : ℕ)
      → get_elem? (moved l.server.clients i k (some q) none) j ≡ (
          if k == j
          then some none
          else if i == j
          then some (some q)
          else get_elem? l.server.clients j)
  cells_after j =
      get_elem?-moved l.server.clients i k j (some q) none
        (omega (arith, ok.cells, ok.bound, active, inside))
        (omega (arith, ok.cells, ok.bound, active))

  fds_after :
      (j : ℕ)
      → get_elem? (moved l.watch i k fd (negsuc 0)) j
        ≡ (if k == j then some (negsuc 0) else if i == j then some fd else get_elem? l.watch j)
  fds_after j =
      get_elem?-moved l.watch i k j fd (negsuc 0) (omega (arith, ok.fds, ok.bound, active, inside))
        (omega (arith, ok.fds, ok.bound, active))

  -- A client that is still there was elsewhere before, and is not the one that was freed.
  origin :
      (j : ℕ) (r : Address)
      → get_elem? (moved l.server.clients i k (some q) none) j ≡ some (some r)
      → (m : ℕ) × (get_elem? l.server.clients m ≡ some (some r))
        × (m ≢ i)
        × (get_elem? (moved l.watch i k fd (negsuc 0)) j ≡ get_elem? l.watch m)
        × (m ≡ (if i == j then k else j))
  origin j r at = elim (Bool-cases (k == j)) [
    | inl gone ↦ ground (arith, at, cells_after j, gone)
    | inr kept ↦ elim (Bool-cases (i == j)) [
      | inl here ↦ (
        k,
        ground (arith, at, cells_after j, kept, here, at_k),
        ground (arith, kept, here, ==_iff i j, ==_iff k j),
        fds_after j ∙ rw (kept, here) (sym watched),
        rw here refl,
      )
      | inr apart ↦ (
        j,
        ground (arith, at, cells_after j, kept, apart),
        ground (arith, apart, ==_iff i j),
        fds_after j ∙ rw (kept, apart) refl,
        rw apart refl,
      )
    ]
  ]

  live_after :
      (j : ℕ) (r : Address)
      → get_elem? (moved l.server.clients i k (some q) none) j ≡ some (some r)
      → (c : Client) × ((if p == r then none else l.server.heap r) ≡ some c)
        × (get_elem? (moved l.watch i k fd (negsuc 0)) j ≡ some c.fd)
  live_after j r at =
      let (m, old, apart, fds, _) = origin j r at in
      let (c, found, w) = ok.live m r old in
      (
        c,
        elim (Bool-cases (p == r)) [
          | inl same ↦
              absurd
                (apart (ok.unique m i r old (at_i ∙ ap (λ x. some (some x)) ((==_iff p r).0 same))))
          | inr other ↦ rw other found
        ],
        fds ∙ w,
      )

  unique_after :
      (a b : ℕ) (r : Address)
      → get_elem? (moved l.server.clients i k (some q) none) a ≡ some (some r)
      → get_elem? (moved l.server.clients i k (some q) none) b ≡ some (some r)
      → a ≡ b
  unique_after a b r at at' =
      let (m, old, _, _, e) = origin a r at in
      let (n, old', _, _, f) = origin b r at' in
      ground (
        arith,
        at,
        at',
        cells_after a,
        cells_after b,
        e,
        f,
        ok.unique m n r old old',
        ==_iff i a,
        ==_iff i b,
        ==_iff k a,
        ==_iff k b,
      )

  used_after :
      (j : ℕ)
      → 0 < j
      → j < k
      → (r : Address) × (get_elem? (moved l.server.clients i k (some q) none) j ≡ some (some r))
  used_after j h b = elim (Bool-cases (i == j)) [
    | inl here ↦ (q, cells_after j ∙ ground (arith, here, b))
    | inr apart ↦
        let (r, at) = ok.used j h (omega (arith, b, active)) in
        (r, cells_after j ∙ ground (arith, apart, b, at))
  ]

  pub close-IsInOrder : IsInOrder limit (record {
    server = record l.server {
      clients = moved l.server.clients i k (some q) none;
      heap = λ r. if p == r then none else l.server.heap r;
    };
    active = k;
    watch = moved l.watch i k fd (negsuc 0);
  })
  close-IsInOrder = record {
    cells =
        length-set (set l.server.clients i (some q)) k none
        ∙ length-set l.server.clients i (some q)
        ∙ ok.cells;
    fds = length-set (set l.watch i fd) k (negsuc 0) ∙ length-set l.watch i fd ∙ ok.fds;
    first = omega (arith, inside, positive);
    bound = omega (arith, ok.bound, active);
    used = used_after;
    unused = λ j h b. cells_after j ∙ elim (Bool-cases (k == j)) [
      | inl gone ↦ rw gone refl
      | inr kept ↦
          let after : k < j = ground (arith, kept, h) in
          ground (arith, kept, after, inside, ok.unused j (omega (arith, active, after)) b)
    ];
    live = live_after;
    unique = unique_after;
  }
