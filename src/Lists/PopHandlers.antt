-- ===== src/Lists/PopHandlers.antt =====
-- `handle_lpop` and `handle_rpop` against the lists that the arrays stand for.
use codecrafters_redis_c.Base.{
  ℕ, zero, suc, ◌+◌, ◌-◌, ◌≤◌, ◌<◌, ℤ, pos, Bytes, crlf, List, [], ◌∷◌, ◌++◌, map, Option, some,
  ◌≡◌, refl, arith, length, take, drop, length-take, length-drop, get_elem?, ltb, if◌then◌else◌,
}
use codecrafters_redis_c.Outcome.{done}
use codecrafters_redis_c.Libc.{print_nat, atoi, bulk, concat}
use codecrafters_redis_c.Libc.RoundTrip.{print_all-fits, sent_bytes-fits}
use codecrafters_redis_c.Resp.Command.{Command}
use codecrafters_redis_c.Keyspace.{ArrayList, Table}
use codecrafters_redis_c.Server.{Server}
use codecrafters_redis_c.Server.Exec.{Exec, formatted}
use codecrafters_redis_c.Lists.Array.{read_cell, shift_left}
use codecrafters_redis_c.Lists.ArrayLaws.{shift_left_lem, get_elem?-some, get_elem?-take}
use codecrafters_redis_c.Lists.Commands.{as_list, entry_value, drop_first}
use codecrafters_redis_c.Lists.Pops.{
  read_cells, elements_reply, lpop_many, lpop_one, rpop_many, rpop_one, handle_lpop, handle_rpop,
}
use codecrafters_redis_c.Lists.Pushes.{Holds, ListAt, SameElsewhere, put_list}

pub get_elem?-drop {ℓ} :
    {A : Type ℓ} (n : ℕ) (xs : List A) (i : ℕ) → get_elem? (drop n xs) i ≡ get_elem? xs (i + n)
get_elem?-drop zero xs i = ground arith
get_elem?-drop (suc n) [] i = refl
get_elem?-drop (suc n) (x ∷ xs) i = ground (arith, get_elem?-drop n xs i)

-- The shift of LPOP leaves the elements behind the first `n`.
pub shifted_Holds :
    (l : ArrayList) (xs : List Bytes) (n : ℕ)
    → Holds l xs
    → 0 < n
    → n ≤ length xs
    → (values : List (Option Bytes)) × (shift_left (l.size - n) 0 n l.values ≡ done values)
      × Holds (record l { values = values; size = l.size - n }) (drop n xs)
shifted_Holds l xs n h p q =
    let shift = shift_left_lem (l.size - n) 0 n l.values (omega (arith, h.size, h.room)) p in
    (
      shift.values',
      shift.returns,
      record {
        size = omega (arith, h.size, length-drop n xs);
        room = omega (arith, h.size, h.room, length-drop n xs, shift.same_length);
        cell = λ i r.
            ground (
              arith,
              shift.cell i,
              h.cell (i + n),
              h.size,
              get_elem?-drop n xs i,
              length-drop n xs,
            );
      },
    )

-- A smaller size leaves the first elements.
cut_Holds :
    (l : ArrayList) (xs : List Bytes) (n : ℕ)
    → Holds l xs
    → n ≤ length xs
    → Holds (record l { size = n }) (take n xs)
cut_Holds l xs n h q = record {
  size = omega (arith, length-take n xs);
  room = omega (arith, h.room, length-take n xs);
  cell = λ i r. ground (arith, h.cell i, get_elem?-take n xs i, length-take n xs);
}

pub read_first :
    (l : ArrayList) (xs : List Bytes) (i : ℕ) (x : Bytes)
    → Holds l xs
    → get_elem? xs i ≡ some x
    → i < length xs
    → read_cell l.values i ≡ done x
unfolding read_cell
read_first l xs i x h e p = ground (arith, h.cell i p, e)

pub drop_step {ℓ} :
    {A : Type ℓ} (i : ℕ) (xs : List A) (x : A)
    → get_elem? xs i ≡ some x
    → drop i xs ≡ x ∷ drop (i + 1) xs
drop_step i [] x e = cc e
drop_step zero (y ∷ xs) x e = ground (arith, e)
drop_step (suc i) (y ∷ xs) x e = ground (arith, drop_step i xs x e)

read_cells_lem :
    (n i : ℕ) (l : ArrayList) (xs : List Bytes)
    → Holds l xs
    → i + n ≤ length xs
    → read_cells n i l.values ≡ done (take n (drop i xs))
unfolding read_cells
read_cells_lem zero i l xs h p = refl
read_cells_lem (suc n) i l xs h p =
    let (x, e) = get_elem?-some xs i (omega arith) in
    rw (
      read_first l xs i x h e (omega arith),
      read_cells_lem n (i + 1) l xs h (omega arith),
      drop_step i xs x e,
    )

-- A reply that fits the buffer of 2048 bytes is the header and the elements.
elements_reply-fits :
    (vs : List Bytes)
    → length (concat ((b'*' ∷ (print_nat (length vs) ++ crlf)) ∷ map bulk vs)) < 2048
    → elements_reply vs ≡ done (concat ((b'*' ∷ (print_nat (length vs) ++ crlf)) ∷ map bulk vs))
unfolding elements_reply
elements_reply-fits vs p =
    let parts : List Bytes = (b'*' ∷ (print_nat (length vs) ++ crlf)) ∷ map bulk vs in
    rw (print_all-fits 2048 parts [] (omega arith)) (sent_bytes-fits 2048 (concat parts) p)

-- A pop whose whole effect is that the key has the list `ys`, that the lookups of all other keys
-- stay, and that the client gets `reply`.
pub record Popped (key : Bytes) (m : Exec (Unit {0})) (fd : ℤ) (reply : Bytes) (ys : List Bytes)
    (s : Server) : Type 0 where
  pub final : Table
  pub returns : m s ≡ done (tt, record s { table = final; sent = s.sent ++ (fd, reply) ∷ [] })
  pub at_key : ListAt key ys final
  pub elsewhere : SameElsewhere key s.table final

-- LPOP with no count from a list with a first element returns; the client gets that element and the
-- list keeps the rest.
pub handle_lpop_one :
    (c : Command) (key x : Bytes) (xs : List Bytes) (fd : ℤ) (s : Server)
    → ListAt key (x ∷ xs) s.table
    → Popped key
        (handle_lpop (record { command = c; args = key ∷ [] }) fd)
        fd
        (formatted 2048 (bulk x))
        xs
        s
unfolding handle_lpop lpop_one drop_first as_list entry_value
handle_lpop_one c key x xs fd s at =
    let l = at.array in
    let (values, e, h) = shifted_Holds l (x ∷ xs) 1 at.holds (omega arith) (omega arith) in
    let (final, written, at', elsewhere) =
      put_list key (x ∷ xs) xs (record l { values = values; size = l.size - 1 }) s.table at h in
    record {
      final = final;
      returns = ground (
        arith,
        at.found,
        at.value,
        at.holds.size,
        read_first l (x ∷ xs) 0 x at.holds refl (omega arith),
        e,
        written,
      );
      at_key = at';
      elsewhere = elsewhere;
    }

-- The reply of a pop with a count: an array of bulk strings.
abbrev pub array_reply : List Bytes → Bytes
array_reply vs = concat ((b'*' ∷ (print_nat (length vs) ++ crlf)) ∷ map bulk vs)

-- How many elements a pop with the positive count `k` takes from `n`.
abbrev pub popped : ℕ → ℕ → ℕ
popped k n = if ltb n k then n else k

-- LPOP with a positive count from a list that is not empty, where the reply fits 2048 bytes,
-- returns; the client gets the first elements, as many as the count or as there are, and the list
-- keeps the others.
pub handle_lpop_many :
    (c : Command) (key text : Bytes) (k : ℕ) (xs : List Bytes) (fd : ℤ) (s : Server)
    → ListAt key xs s.table
    → atoi text ≡ done (pos k)
    → 0 < k
    → 0 < length xs
    → length (array_reply (take (popped k (length xs)) xs)) < 2048
    → Popped key
        (handle_lpop (record { command = c; args = key ∷ text ∷ [] }) fd)
        fd
        (array_reply (take (popped k (length xs)) xs))
        (drop (popped k (length xs)) xs)
        s
unfolding handle_lpop lpop_many as_list entry_value
handle_lpop_many c key text k xs fd s at count positive some_left fits =
    let l = at.array in
    let n : ℕ = popped k (length xs) in
    let bound : n ≤ length xs = ground arith in
    let (values, e, h) = shifted_Holds l xs n at.holds (ground arith) bound in
    let (final, written, at', elsewhere) =
      put_list key xs (drop n xs) (record l { values = values; size = l.size - n }) s.table at h in
    record {
      final = final;
      returns = ground (
        arith,
        at.found,
        at.value,
        count,
        at.holds.size,
        read_cells_lem n 0 l xs at.holds (omega (arith, bound)),
        elements_reply-fits (take n xs) fits,
        e,
        written,
      );
      at_key = at';
      elsewhere = elsewhere;
    }

-- `handle_rpop` with no count on a list that is not empty returns; the client gets the last element
-- and the list keeps the others.
pub handle_rpop_one :
    (c : Command) (key x : Bytes) (xs : List Bytes) (fd : ℤ) (s : Server)
    → ListAt key xs s.table
    → 0 < length xs
    → get_elem? xs (length xs - 1) ≡ some x
    → Popped key
        (handle_rpop (record { command = c; args = key ∷ [] }) fd)
        fd
        (formatted 1024 (bulk x))
        (take (length xs - 1) xs)
        s
unfolding handle_rpop rpop_one as_list entry_value
handle_rpop_one c key x xs fd s at some_left last =
    let l = at.array in
    let n : ℕ = length xs - 1 in
    let (final, written, at', elsewhere) =
      put_list key xs (take n xs) (record l { size = n }) s.table at
        (cut_Holds l xs n at.holds (omega arith)) in
    record {
      final = final;
      returns = ground (
        arith,
        at.found,
        at.value,
        at.holds.size,
        read_first l xs n x at.holds last (omega arith),
        written,
      );
      at_key = at';
      elsewhere = elsewhere;
    }

-- `handle_rpop` with a positive count on a list that is not empty, where the reply fits 2048 bytes,
-- returns; the client gets the last elements in the list's order, as many as the count or as there
-- are, and the list keeps the others.
pub handle_rpop_many :
    (c : Command) (key text : Bytes) (k : ℕ) (xs : List Bytes) (fd : ℤ) (s : Server)
    → ListAt key xs s.table
    → atoi text ≡ done (pos k)
    → 0 < k
    → 0 < length xs
    → length
        (array_reply (take (popped k (length xs)) (drop (length xs - popped k (length xs)) xs)))
      < 2048
    → Popped key
        (handle_rpop (record { command = c; args = key ∷ text ∷ [] }) fd)
        fd
        (array_reply (take (popped k (length xs)) (drop (length xs - popped k (length xs)) xs)))
        (take (length xs - popped k (length xs)) xs)
        s
unfolding handle_rpop rpop_many as_list entry_value
handle_rpop_many c key text k xs fd s at count positive some_left fits =
    let l = at.array in
    let n : ℕ = popped k (length xs) in
    let m : ℕ = length xs - n in
    let bound : n ≤ length xs = ground arith in
    let (final, written, at', elsewhere) =
      put_list key xs (take m xs) (record l { size = m }) s.table at
        (cut_Holds l xs m at.holds (omega arith)) in
    record {
      final = final;
      returns = ground (
        arith,
        at.found,
        at.value,
        count,
        at.holds.size,
        read_cells_lem n m l xs at.holds (omega (arith, bound)),
        elements_reply-fits (take n (drop m xs)) fits,
        written,
      );
      at_key = at';
      elsewhere = elsewhere;
    }
