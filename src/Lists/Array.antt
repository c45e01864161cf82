-- ===== src/Lists/Array.antt =====
-- The loops of src/list_handler.c over the array `char **values`. A cell that was never written
-- holds `none`; an access past the allocation is undefined.
use codecrafters_redis_c.Base.{
  ℕ, zero, suc, ◌+◌, Bytes, List, [], ◌∷◌, ◌++◌, Option, none, some, length, get_elem?, set, take,
  replicate, ltb,
}
use codecrafters_redis_c.Outcome.{Outcome, done, ◌>>=◌, ◌>>◌, deref, require}

abbrev pub Cells : Type 0
Cells = List (Option Bytes)

-- The string that values[i] points to.
unfoldable pub read_cell : Cells → ℕ → Outcome Bytes
read_cell values i = do cell ← deref (get_elem? values i); deref cell

unfoldable pub write_cell : ℕ → Option Bytes → Cells → Outcome Cells
write_cell i v values = do require (ltb i (length values)); done (set values i v)

-- values[i] = values[j]
unfoldable pub copy_cell : ℕ → ℕ → Cells → Outcome Cells
unfolding write_cell
copy_cell i j values = do v ← deref (get_elem? values j); write_cell i v values

-- `realloc` to `n` cells; `malloc` is `realloc` of no cells.
unfoldable pub realloc : ℕ → Cells → Cells
realloc n values = take n (values ++ replicate n none)

-- for (i = 1; i < argc; i++) { values[size] = strdup(args[i]); size++; }
unfoldable pub push_back : List Bytes → ℕ → Cells → Outcome Cells
unfolding write_cell
push_back [] size values = done values
push_back (a ∷ args) size values = do
  values' ← write_cell size (some a) values
  push_back args (size + 1) values'

-- for (i = count - 1; i >= 0; i--) values[i + n] = values[i];
unfoldable pub shift_right : ℕ → ℕ → Cells → Outcome Cells
unfolding copy_cell
shift_right zero n values = done values
shift_right (suc i) n values = do values' ← copy_cell (i + n) i values; shift_right i n values'

-- for (i = 1; i <= newCount; i++) values[newCount - i] = strdup(args[i]);
unfoldable pub write_front : List Bytes → Cells → Outcome Cells
unfolding write_cell
write_front [] values = done values
write_front (a ∷ args) values = do
  values' ← write_cell (length args) (some a) values
  write_front args values'

-- for (; rounds > 0; i++, rounds--) values[i] = values[i + n];
unfoldable pub shift_left : ℕ → ℕ → ℕ → Cells → Outcome Cells
unfolding copy_cell
shift_left zero i n values = done values
shift_left (suc rounds) i n values = do
  values' ← copy_cell i (i + n) values
  shift_left rounds (i + 1) n values'
