-- ===== src/Lists/PushHandlers.antt =====
-- `handle_lpush` and `handle_rpush` as whole commands.
use codecrafters_redis_c.Base.{
  ℕ, ◌+◌, ◌-◌, ℤ, Bytes, List, [], ◌∷◌, ◌++◌, Option, none, some, ◌≡◌, refl, arith, false, length,
}
use mathlib.Core.List.{reverse}
use codecrafters_redis_c.Outcome.{done}
use codecrafters_redis_c.Resp.Command.{Command}
use codecrafters_redis_c.Keyspace.{ArrayList, Entry, Table}
use codecrafters_redis_c.Keyspace.Store.{store_get_entry}
use codecrafters_redis_c.Keyspace.Laws.{store_get_entry-store_set_list}
use codecrafters_redis_c.Server.{Server, Client, Address, Heap}
use codecrafters_redis_c.Server.Exec.{Exec, formatted}
use codecrafters_redis_c.Lists.Array.{realloc}
use codecrafters_redis_c.Lists.ArrayLaws.{length-realloc}
use codecrafters_redis_c.Lists.Commands.{
  as_list, entry_value, open_list, number_reply, waits_for, longest_waiting, deliver, handle_rpush,
  handle_lpush,
}
use codecrafters_redis_c.Lists.Pushes.{
  Holds, ListAt, put_list, lpush_array, rpush_array, grown_Holds,
}

-- `open_list` on the value of a key leaves the key with a list that holds `xs`, and returns it with
-- room for `n` more; only the table changes.
record Opened (key : Bytes) (n : ℕ) (o : Option Entry) (xs : List Bytes) (s : Server) : Type 0 where
  array : ArrayList
  table' : Table
  returns : open_list key n (entry_value o) s ≡ done (array, record s { table = table' })
  at_key : ListAt key xs table'
  holds : Holds array xs
  room : length array.values ≡ array.size + n

open_old :
    (key : Bytes) (n : ℕ) (xs : List Bytes) (s : Server) (at : ListAt key xs s.table)
    → Opened key n (some at.entry) xs s
unfolding open_list entry_value as_list
open_old key n xs s at = record {
  array = record at.array { values = realloc (at.array.size + n) at.array.values };
  table' = s.table;
  returns = rw at.value;
  at_key = at;
  holds = grown_Holds at.array xs n at.holds;
  room = length-realloc (at.array.size + n) at.array.values;
}

open_new :
    (key : Bytes) (n : ℕ) (s : Server)
    → store_get_entry key s.table ≡ done none
    → Opened key n none [] s
unfolding open_list entry_value
open_new key n s h =
    let l : ArrayList = record { values = realloc n []; size = 0; capacity = n } in
    let (table', e, written, found, value) = store_get_entry-store_set_list key l s.table h in
    let empty : Holds l [] = record {
      size = refl;
      room = omega arith;
      cell = λ i p. absurd (omega arith);
    } in
    record {
      array = l;
      table' = table';
      returns = ground (arith, written);
      at_key = record { entry = e; array = l; found = found; value = value; holds = empty };
      holds = empty;
      room = omega (arith, length-realloc n []);
    }

-- A command whose whole effect is that the key has the list `ys` and that the client gets the length
-- of `ys`.
pub record Pushed (key : Bytes) (m : Exec (Unit {0})) (fd : ℤ) (ys : List Bytes) (s : Server)
    : Type 0 where
  pub final : Table
  pub returns :
      m s
      ≡ done (
        tt,
        record s {
          table = final;
          sent = s.sent ++ (fd, formatted 1024 (number_reply (length ys))) ∷ [];
        },
      )
  pub at_key : ListAt key ys final

lpush-Opened :
    (c : Command) (key a : Bytes) (args xs : List Bytes) (fd : ℤ) (o : Option Entry) (s : Server)
    → store_get_entry key s.table ≡ done o
    → Opened key (length (key ∷ a ∷ args) - 1) o xs s
    → Pushed key
        (handle_lpush (record { command = c; args = key ∷ a ∷ args }) fd)
        fd
        (reverse (a ∷ args) ++ xs)
        s
unfolding handle_lpush
lpush-Opened c key a args xs fd o s found opened =
    let n : ℕ = length (key ∷ a ∷ args) - 1 in
    let (shifted, values, e₁, e₂, h) =
      lpush_array opened.array xs (a ∷ args) n opened.holds (omega arith) opened.room in
    let (final, written, at, _) =
      put_list key xs (reverse (a ∷ args) ++ xs)
        (record opened.array { values = values; size = opened.array.size + n }) opened.table'
        opened.at_key h in
    record {
      final = final;
      returns = ground (arith, found, opened.returns, e₁, e₂, written, h.size);
      at_key = at;
    }

-- LPUSH of one or more elements to a key that has a list returns; the key then has the elements in
-- reverse order before the old ones, and the client gets the new length.
pub handle_lpush_old :
    (c : Command) (key a : Bytes) (args xs : List Bytes) (fd : ℤ) (s : Server)
    → ListAt key xs s.table
    → Pushed key
        (handle_lpush (record { command = c; args = key ∷ a ∷ args }) fd)
        fd
        (reverse (a ∷ args) ++ xs)
        s
handle_lpush_old c key a args xs fd s at =
    lpush-Opened c key a args xs fd (some at.entry) s at.found (open_old key _ xs s at)

-- LPUSH of one or more elements to a key that is not in the table returns; the key then has the
-- elements in reverse order, and the client gets their number.
pub handle_lpush_new :
    (c : Command) (key a : Bytes) (args : List Bytes) (fd : ℤ) (s : Server)
    → store_get_entry key s.table ≡ done none
    → Pushed key
        (handle_lpush (record { command = c; args = key ∷ a ∷ args }) fd)
        fd
        (reverse (a ∷ args) ++ [])
        s
handle_lpush_new c key a args fd s h = lpush-Opened c key a args [] fd none s h (open_new key _ s h)

-- No client in the array waits in BLPOP for the key.
abbrev pub NoneWaits : Bytes → Heap → List (Option Address) → Type 0
NoneWaits key heap [] = Unit
NoneWaits key heap (none ∷ slots) = NoneWaits key heap slots
NoneWaits key heap (some p ∷ slots) =
    ((c : Client) × (heap p ≡ some c) × (waits_for key c ≡ false)) × NoneWaits key heap slots

pub nobody_waits :
    (key : Bytes) (slots : List (Option Address)) (longest : ℕ) (best : Option Address) (s : Server)
    → NoneWaits key s.heap slots
    → longest_waiting key slots longest best s ≡ done (best, s)
unfolding longest_waiting
nobody_waits key [] longest best s w = refl
nobody_waits key (none ∷ slots) longest best s w = nobody_waits key slots longest best s w
nobody_waits key (some p ∷ slots) longest best s ((c, at, quiet), w) =
    ground (arith, at, quiet, nobody_waits key slots longest best s w)

rpush-Opened :
    (c : Command) (key a : Bytes) (args xs : List Bytes) (fd : ℤ) (o : Option Entry) (s : Server)
    → store_get_entry key s.table ≡ done o
    → Opened key (length (key ∷ a ∷ args) - 1) o xs s
    → NoneWaits key s.heap s.clients
    → Pushed key
        (handle_rpush (record { command = c; args = key ∷ a ∷ args }) fd)
        fd
        (xs ++ a ∷ args)
        s
unfolding handle_rpush deliver
rpush-Opened c key a args xs fd o s found opened w =
    let n : ℕ = length (key ∷ a ∷ args) - 1 in
    let (values, e, h) =
      rpush_array opened.array xs (a ∷ args) n opened.holds (omega arith) opened.room in
    let pushed : ArrayList = record opened.array {
      values = values;
      size = opened.array.size + n;
    } in
    let (final, written, at, _) =
      put_list key xs (xs ++ a ∷ args) pushed opened.table' opened.at_key h in
    let replied : Server = record s {
      table = final;
      sent = s.sent ++ (fd, formatted 1024 (number_reply pushed.size)) ∷ [];
    } in
    record {
      final = final;
      returns = ground (
        arith,
        found,
        opened.returns,
        e,
        written,
        h.size,
        nobody_waits key s.clients 0 none replied w,
      );
      at_key = at;
    }

-- RPUSH of one or more elements to a key that has a list, while no client waits for the key,
-- returns; the key then has the elements behind the old ones, and the client gets the new length.
pub handle_rpush_old :
    (c : Command) (key a : Bytes) (args xs : List Bytes) (fd : ℤ) (s : Server)
    → ListAt key xs s.table
    → NoneWaits key s.heap s.clients
    → Pushed key
        (handle_rpush (record { command = c; args = key ∷ a ∷ args }) fd)
        fd
        (xs ++ a ∷ args)
        s
handle_rpush_old c key a args xs fd s at w =
    rpush-Opened c key a args xs fd (some at.entry) s at.found (open_old key _ xs s at) w

-- RPUSH of one or more elements to a key that is not in the table, while no client waits for the
-- key, returns; the key then has the elements, and the client gets their number.
pub handle_rpush_new :
    (c : Command) (key a : Bytes) (args : List Bytes) (fd : ℤ) (s : Server)
    → store_get_entry key s.table ≡ done none
    → NoneWaits key s.heap s.clients
    → Pushed key (handle_rpush (record { command = c; args = key ∷ a ∷ args }) fd) fd (a ∷ args) s
handle_rpush_new c key a args fd s h w =
    rpush-Opened c key a args [] fd none s h (open_new key _ s h) w
