-- ===== src/Lists/ArrayLaws.antt =====
-- What the loops over the array do, cell by cell, and that they stay inside the allocation.
use codecrafters_redis_c.Base.{
  ℕ, zero, suc, ◌+◌, ◌-◌, ◌≤◌, ◌<◌, Bytes, List, [], ◌∷◌, ◌++◌, Option, none, some, ◌≡◌, refl, ◌∙◌,
  arith, length, get_elem?, set, take, replicate, ltb, leb, ◌==◌, ◌&&◌, if◌then◌else◌, length-set,
  length-append, length-replicate, length-take,
}
use mathlib.Core.List.{reverse, reverse-append}
use codecrafters_redis_c.Outcome.{Outcome, done}
use codecrafters_redis_c.Lists.Array.{
  Cells, write_cell, copy_cell, realloc, push_back, shift_right, write_front, shift_left,
}

module _ {ℓ} {A : Type ℓ} where
  pub get_elem?-set :
      (xs : List A) (i j : ℕ) (v : A)
      → i < length xs
      → get_elem? (set xs i v) j ≡ (if i == j then some v else get_elem? xs j)
  get_elem?-set [] i j v h = absurd (omega arith)
  get_elem?-set (x ∷ xs) zero zero v h = refl
  get_elem?-set (x ∷ xs) zero (suc j) v h = ground arith
  get_elem?-set (x ∷ xs) (suc i) zero v h = ground arith
  get_elem?-set (x ∷ xs) (suc i) (suc j) v h = ground (arith, get_elem?-set xs i j v)

  pub get_elem?-append :
      (xs ys : List A) (i : ℕ)
      → get_elem? (xs ++ ys) i
        ≡ (if ltb i (length xs) then get_elem? xs i else get_elem? ys (i - length xs))
  get_elem?-append [] ys i = ground arith
  get_elem?-append (x ∷ xs) ys zero = ground arith
  get_elem?-append (x ∷ xs) ys (suc i) = ground (arith, get_elem?-append xs ys i)

  pub get_elem?-cons :
      (x : A) (xs : List A) (i : ℕ)
      → get_elem? (x ∷ xs) i ≡ (if i == 0 then some x else get_elem? xs (i - 1))
  get_elem?-cons x xs zero = ground arith
  get_elem?-cons x xs (suc i) = ground arith

  pub get_elem?-some : (xs : List A) (i : ℕ) → i < length xs → (a : A) × (get_elem? xs i ≡ some a)
  get_elem?-some [] i h = absurd (omega arith)
  get_elem?-some (x ∷ xs) zero h = (x, refl)
  get_elem?-some (x ∷ xs) (suc i) h = get_elem?-some xs i (omega arith)

  pub get_elem?-take :
      (n : ℕ) (xs : List A) (i : ℕ)
      → get_elem? (take n xs) i ≡ (if ltb i n then get_elem? xs i else none)
  get_elem?-take zero xs i = ground arith
  get_elem?-take (suc n) [] i = ground arith
  get_elem?-take (suc n) (x ∷ xs) zero = ground arith
  get_elem?-take (suc n) (x ∷ xs) (suc i) = ground (arith, get_elem?-take n xs i)

  pub length-reverse : (xs : List A) → length (reverse xs) ≡ length xs
  length-reverse [] = refl
  length-reverse (x ∷ xs) =
      rw (reverse-append (x ∷ []) xs)
        (omega (arith, length-append (reverse xs) (x ∷ []), length-reverse xs))

-- A loop's result: it returns, the array keeps its length, and its cells are these.
pub record Result (o : Outcome Cells) (values : Cells) (cells : ℕ → Option (Option Bytes))
    : Type 0 where
  pub values' : Cells
  pub returns : o ≡ done values'
  pub same_length : length values' ≡ length values
  pub cell : (j : ℕ) → get_elem? values' j ≡ cells j

copy_cell_lem :
    (i j : ℕ) (values : Cells)
    → i < length values
    → j < length values
    → Result
        (copy_cell i j values)
        values
        (λ k. if i == k then get_elem? values j else get_elem? values k)
unfolding copy_cell
copy_cell_lem i j values hi hj =
    let (v, e) = get_elem?-some values j hj in
    record {
      values' = set values i v;
      returns = rw e (ground arith);
      same_length = length-set values i v;
      cell = λ k. ground (arith, e, get_elem?-set values i k v hi);
    }

-- After the loop over `k` cells, the cells from `n` to `n + k` hold what the first `k` held.
pub shift_right_lem :
    (k n : ℕ) (values : Cells)
    → k + n ≤ length values
    → Result
        (shift_right k n values)
        values
        (λ j. if leb n j && ltb j (k + n) then get_elem? values (j - n) else get_elem? values j)
unfolding shift_right
shift_right_lem zero n values h = record {
  values' = values;
  returns = refl;
  same_length = refl;
  cell = λ j. ground arith;
}
shift_right_lem (suc i) n values h =
    let first = copy_cell_lem (i + n) i values (omega arith) (omega arith) in
    let rest = shift_right_lem i n first.values' (omega (arith, first.same_length)) in
    record {
      values' = rest.values';
      returns = rw first.returns rest.returns;
      same_length = rest.same_length ∙ first.same_length;
      cell = λ j. ground (arith, rest.cell j, first.cell j, first.cell (j - n));
    }

-- After the loop from cell `i` over `rounds` cells, each of these holds what stood `n` further on.
pub shift_left_lem :
    (rounds i n : ℕ) (values : Cells)
    → i + rounds + n ≤ length values
    → 0 < n
    → Result (shift_left rounds i n values) values (λ j.
      if leb i j && ltb j (i + rounds) then get_elem? values (j + n) else get_elem? values j)
unfolding shift_left
shift_left_lem zero i n values h p = record {
  values' = values;
  returns = refl;
  same_length = refl;
  cell = λ j. ground arith;
}
shift_left_lem (suc rounds) i n values h p =
    let first = copy_cell_lem i (i + n) values (omega arith) (omega arith) in
    let rest = shift_left_lem rounds (i + 1) n first.values' (omega (arith, first.same_length)) p in
    record {
      values' = rest.values';
      returns = rw first.returns rest.returns;
      same_length = rest.same_length ∙ first.same_length;
      cell = λ j. ground (arith, rest.cell j, first.cell j, first.cell (j + n));
    }

write_cell_lem :
    (i : ℕ) (v : Option Bytes) (values : Cells)
    → i < length values
    → Result (write_cell i v values) values (λ k. if i == k then some v else get_elem? values k)
unfolding write_cell
write_cell_lem i v values h = record {
  values' = set values i v;
  returns = ground arith;
  same_length = length-set values i v;
  cell = λ k. get_elem?-set values i k v h;
}

-- The arguments are written behind the first `size` cells, in their order.
pub push_back_lem :
    (args : List Bytes) (size : ℕ) (values : Cells)
    → size + length args ≤ length values
    → Result (push_back args size values) values (λ j.
      if leb size j && ltb j (size + length args)
      then some (get_elem? args (j - size))
      else get_elem? values j)
unfolding push_back
push_back_lem [] size values h = record {
  values' = values;
  returns = refl;
  same_length = refl;
  cell = λ j. ground arith;
}
push_back_lem (a ∷ args) size values h =
    let first = write_cell_lem size (some a) values (omega arith) in
    let rest = push_back_lem args (size + 1) first.values' (omega (arith, first.same_length)) in
    record {
      values' = rest.values';
      returns = rw first.returns rest.returns;
      same_length = rest.same_length ∙ first.same_length;
      cell = λ j. ground (arith, rest.cell j, first.cell j, get_elem?-cons a args (j - size));
    }

-- The arguments are written before the rest, in reverse order.
pub write_front_lem :
    (args : List Bytes) (values : Cells)
    → length args ≤ length values
    → Result
        (write_front args values)
        values
        (λ j. if ltb j (length args) then some (get_elem? (reverse args) j) else get_elem? values j)
unfolding write_front
write_front_lem [] values h = record {
  values' = values;
  returns = refl;
  same_length = refl;
  cell = λ j. ground arith;
}
write_front_lem (a ∷ args) values h =
    let first = write_cell_lem (length args) (some a) values (omega arith) in
    let rest = write_front_lem args first.values' (omega (arith, first.same_length)) in
    record {
      values' = rest.values';
      returns = rw first.returns rest.returns;
      same_length = rest.same_length ∙ first.same_length;
      cell = λ j. rw (reverse-append (a ∷ []) args) (
          ground (
            arith,
            rest.cell j,
            first.cell j,
            get_elem?-append (reverse args) (a ∷ []) j,
            length-reverse args,
          ));
    }

-- `realloc` gives the asked length and keeps the cells that fit.
pub length-realloc : (n : ℕ) (values : Cells) → length (realloc n values) ≡ n
unfolding realloc
length-realloc n values = omega (
  arith,
  length-take n (values ++ replicate n none),
  length-append values (replicate n none),
  length-replicate {A = Option Bytes} n none,
)

pub get_elem?-realloc :
    (n : ℕ) (values : Cells) (j : ℕ)
    → j < n
    → j < length values
    → get_elem? (realloc n values) j ≡ get_elem? values j
unfolding realloc
get_elem?-realloc n values j p q = ground (
  arith,
  get_elem?-take n (values ++ replicate n none) j,
  get_elem?-append values (replicate n none) j,
)
