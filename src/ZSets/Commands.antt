-- ===== src/ZSets/Commands.antt =====
-- ZADD and ZREM: `handle_zadd` and `handle_zrem`.
use mathlib.Core.List.{tail}
use codecrafters_redis_c.Base.{
  ℕ, ◌+◌, ◌-◌, ◌/◌, ◌%◌, ℤ, Bytes, codes, List, [], ◌∷◌, Option, none, some, not, length, ltb, ◌==◌,
  if◌then◌else◌,
}
use codecrafters_redis_c.Outcome.{Outcome, done, undefined}
use codecrafters_redis_c.Libc.Doubles.{Doubles}
use codecrafters_redis_c.Resp.Request.{Request}
use codecrafters_redis_c.Keyspace.{Value, null, str, list, stream, zset, ZSet, Entry}
use codecrafters_redis_c.Keyspace.Store.{store_get_entry, store_set_zset, store_put_value}
use codecrafters_redis_c.Server.Exec.{
  Exec, ◌>>=◌, ◌>>◌, pure, lift, send, formatted, from_table, to_table, arg,
}
use codecrafters_redis_c.Lists.Commands.{entry_value, is_null, number_reply}
use codecrafters_redis_c.ZSets.Entries.{has_member, zset_remove, zset_add}

-- (ZSet*)entry->value
unfoldable pub as_zset : Value → Outcome ZSet
as_zset (zset z) = done z
as_zset null = undefined
as_zset (str s) = undefined
as_zset (list l) = undefined
as_zset (stream s) = undefined

-- The sorted set of the key, or a new one in the table.
unfoldable pub open_zset : Bytes → Option Entry → Exec ZSet
unfolding as_zset
open_zset key none = do
  let z : ZSet = record { entries = []; length = 0 }
  to_table (store_set_zset key z)
  pure z
open_zset key (some e) = lift (as_zset e.value)

-- zset_remove(set, member); zset_add(set, score, member)
abbrev pub replace_entry : ℕ → Bytes → ZSet → ZSet
replace_entry score member z = zset_add score member (zset_remove member z)

module _ (doubles : Doubles) where
  open doubles use {atof}

  -- The loop over pairs of a score and a member; the number counts the members that are new.
  unfoldable pub zadd_pairs : List Bytes → ZSet → ℕ → ZSet × ℕ
  zadd_pairs [] z created = (z, created)
  zadd_pairs (_ ∷ []) z created = (z, created)
  zadd_pairs (score ∷ member ∷ pairs) z created =
      zadd_pairs pairs (replace_entry (atof score) member z)
        (if has_member member z.entries then created else created + 1)

  unfoldable pub handle_zadd : Request → ℤ → Exec (Unit {0})
  unfolding open_zset zadd_pairs
  handle_zadd req client_fd =
      if ltb (length req.args) 3
      then pure tt
      else if not ((length req.args - 1) % 2 == 0)
      then send client_fd (codes "-ERR Not valid request\r\n")
      else (do
        key ← arg req 0
        entry ← from_table (store_get_entry key)
        z ← open_zset key entry
        if ltb 1 ((length req.args - 1) / 2)
            then (do
              let (z', created) = zadd_pairs (tail req.args) z 0
              to_table (store_put_value key (zset z'))
              send client_fd (formatted 128 (number_reply created)))
            else (do
              score ← arg req 1
              member ← arg req 2
              to_table (store_put_value key (zset (replace_entry (atof score) member z)))
              send client_fd
                  (if has_member member z.entries then codes ":0\r\n" else codes ":1\r\n")))

-- The loop of ZREM; the number counts the members that were there.
unfoldable pub zrem_all : List Bytes → ZSet → ℕ → ZSet × ℕ
zrem_all [] z removed = (z, removed)
zrem_all (member ∷ members) z removed =
    zrem_all members (zset_remove member z)
      (if has_member member z.entries then removed + 1 else removed)

unfoldable pub handle_zrem : Request → ℤ → Exec (Unit {0})
unfolding entry_value as_zset zrem_all
handle_zrem req client_fd = if ltb (length req.args) 2 then pure tt else (do
  key ← arg req 0
  entry ← from_table (store_get_entry key)
  if is_null (entry_value entry) then send client_fd (codes ":0\r\n") else (do
    z ← lift (as_zset (entry_value entry))
    let (z', removed) = zrem_all (tail req.args) z 0
    to_table (store_put_value key (zset z'))
    send client_fd (formatted 64 (number_reply removed))))
