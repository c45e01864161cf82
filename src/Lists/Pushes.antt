-- ===== src/Lists/Pushes.antt =====
-- LPUSH and RPUSH against the lists that the arrays stand for.
use codecrafters_redis_c.Base.{
  ℕ, ◌+◌, ◌-◌, ◌≤◌, ◌<◌, Bytes, str_eq, str_eq_refl, List, ◌++◌, Option, some, ◌≡◌, refl, ◌∙◌,
  arith, false, length, length-append, get_elem?,
}
use mathlib.Core.List.{reverse}
use codecrafters_redis_c.Outcome.{done}
use codecrafters_redis_c.Keyspace.{ArrayList, list, Entry, Table}
use codecrafters_redis_c.Keyspace.Store.{store_get_entry, store_put_value}
use codecrafters_redis_c.Keyspace.Laws.{store_get_entry-store_put_value}
use codecrafters_redis_c.Lists.Array.{realloc, push_back, shift_right, write_front}
use codecrafters_redis_c.Lists.ArrayLaws.{
  shift_right_lem, write_front_lem, push_back_lem, length-realloc, get_elem?-realloc,
  get_elem?-append, length-reverse,
}

-- The first `size` cells of the array hold the elements of `xs`.
pub record Holds (l : ArrayList) (xs : List Bytes) : Type 0 where
  pub size : l.size ≡ length xs
  pub room : length xs ≤ length l.values
  pub cell : (i : ℕ) → i < length xs → get_elem? l.values i ≡ some (get_elem? xs i)

-- The key has an entry whose value is a list that holds `xs`.
pub record ListAt (key : Bytes) (xs : List Bytes) (table : Table) : Type 0 where
  pub entry : Entry
  pub array : ArrayList
  pub found : store_get_entry key table ≡ done (some entry)
  pub value : entry.value ≡ list array
  pub holds : Holds array xs

-- The lookups of all other keys are the same in both tables.
abbrev pub SameElsewhere : Bytes → Table → Table → Type 0
SameElsewhere key t t' =
    (j : Bytes) → str_eq key j ≡ false → store_get_entry j t' ≡ store_get_entry j t

-- A new array behind the entry of a key.
pub put_list :
    (key : Bytes) (xs ys : List Bytes) (l : ArrayList) (table : Table)
    → ListAt key xs table
    → Holds l ys
    → (table' : Table) × (store_put_value key (list l) table ≡ done table')
      × ListAt key ys table'
      × SameElsewhere key table table'
put_list key xs ys l table at h =
    let (table', written, law) =
      store_get_entry-store_put_value key (list l) at.entry table at.found in
    (
      table',
      written,
      record {
        entry = record at.entry { value = list l };
        array = l;
        found = law key ∙ rw (str_eq_refl key);
        value = refl;
        holds = h;
      },
      λ j other. law j ∙ rw other,
    )

-- The loops of LPUSH on an array with room for the arguments.
pub lpush_array :
    (l : ArrayList) (xs args : List Bytes) (n : ℕ)
    → Holds l xs
    → length args ≡ n
    → length l.values ≡ l.size + n
    → (shifted values : List (Option Bytes)) × (shift_right l.size n l.values ≡ done shifted)
      × (write_front args shifted ≡ done values)
      × Holds (record l { values = values; size = l.size + n }) (reverse args ++ xs)
lpush_array l xs args n h e room =
    let first = shift_right_lem l.size n l.values (omega arith) in
    let second = write_front_lem args first.values' (omega (arith, first.same_length)) in
    (
      first.values',
      second.values',
      first.returns,
      second.returns,
      record {
        size = omega (arith, h.size, length-append (reverse args) xs, length-reverse args);
        room = omega (
          arith,
          h.size,
          length-append (reverse args) xs,
          length-reverse args,
          first.same_length,
          second.same_length,
        );
        cell = λ i p. ground (
          arith,
          second.cell i,
          first.cell i,
          h.cell (i - n),
          h.size,
          get_elem?-append (reverse args) xs i,
          length-append (reverse args) xs,
          length-reverse args,
        );
      },
    )

-- The loop of RPUSH.
pub rpush_array :
    (l : ArrayList) (xs args : List Bytes) (n : ℕ)
    → Holds l xs
    → length args ≡ n
    → length l.values ≡ l.size + n
    → (values : List (Option Bytes)) × (push_back args l.size l.values ≡ done values)
      × Holds (record l { values = values; size = l.size + n }) (xs ++ args)
rpush_array l xs args n h e room =
    let first = push_back_lem args l.size l.values (omega arith) in
    (
      first.values',
      first.returns,
      record {
        size = omega (arith, h.size, length-append xs args);
        room = omega (arith, h.size, length-append xs args, first.same_length);
        cell = λ i p. ground (
          arith,
          first.cell i,
          h.cell i,
          h.size,
          get_elem?-append xs args i,
          length-append xs args,
        );
      },
    )

pub grown_Holds :
    (l : ArrayList) (xs : List Bytes) (n : ℕ)
    → Holds l xs
    → Holds (record l { values = realloc (l.size + n) l.values }) xs
grown_Holds l xs n h = record {
  size = h.size;
  room = omega (arith, h.size, length-realloc (l.size + n) l.values);
  cell = λ i p.
      get_elem?-realloc (l.size + n) l.values i (omega (arith, h.size)) (omega (arith, h.room))
      ∙ h.cell i p;
}
