-- ===== src/Tests/ZSets.antt =====
-- The commands on sorted sets, on a set with one member: src/set_handler.c.
use codecrafters_redis_c.Base.{
  ℕ, ◌+◌, pos, Bytes, codes, str_eq, [], ◌∷◌, ◌++◌, some, ◌≡◌, refl, arith, true, length,
  if◌then◌else◌,
}
use codecrafters_redis_c.Outcome.{done}
use codecrafters_redis_c.Resp.Command.{Command}
use codecrafters_redis_c.Keyspace.{ZSet, zset, type_zset, Table}
use codecrafters_redis_c.Keyspace.Hash.{hash, index_of}
use codecrafters_redis_c.Keyspace.Store.{find, store_get_entry}
use codecrafters_redis_c.ZSets.Entries.{has_member}
use codecrafters_redis_c.ZSets.Commands.{replace_entry, handle_zadd}
use codecrafters_redis_c.ZSets.Members.{score_of}
use codecrafters_redis_c.ZSets.SortedSet.{IsSortedSet}
use codecrafters_redis_c.ZSets.Scores.{replace_entry-IsSortedSet}
use codecrafters_redis_c.ZSets.Handlers.{ZSetAt, handle_zadd_one}
use codecrafters_redis_c.Examples.{ones, one_member, entry_at_a, zset_server}

one_member-IsSortedSet : IsSortedSet one_member
unfolding has_member
one_member-IsSortedSet = record {
  numbers = (refl, tt);
  sorted = (tt, tt);
  distinct = (refl, tt);
  size = refl;
  small = omega arith;
}

one_member-ZSetAt : ZSetAt (codes "a") one_member zset_server.table
unfolding store_get_entry find index_of hash str_eq
one_member-ZSetAt = record {
  entry = entry_at_a (zset one_member) type_zset;
  found = refl;
  value = refl;
}

abbrev two : ℕ
two = 4611686018427387904

replace_entry-IsSortedSet_example :
    IsSortedSet (replace_entry two (codes "n") one_member)
    × ((k : Bytes)
        → score_of k (replace_entry two (codes "n") one_member).entries
          ≡ (if str_eq (codes "n") k then some two else score_of k one_member.entries))
    × (length (replace_entry two (codes "n") one_member).entries
        ≡ length one_member.entries + (if has_member (codes "n") one_member.entries then 0 else 1))
replace_entry-IsSortedSet_example =
    replace_entry-IsSortedSet two (codes "n") one_member refl (omega arith) one_member-IsSortedSet

handle_zadd_one_example :
    (table : Table) × (z' : ZSet) × (handle_zadd ones
        (record { command = Command.zadd; args = codes "a" ∷ codes "1" ∷ codes "n" ∷ [] })
        (pos 7)
        zset_server
      ≡ done (
        tt,
        record zset_server {
          table = table;
          sent =
              zset_server.sent
              ++ (
                pos 7,
                (if has_member (codes "n") one_member.entries
                    then codes ":0\r\n"
                    else codes ":1\r\n"),
              )
                ∷ [];
        },
      ))
    × ZSetAt (codes "a") z' table
    × IsSortedSet z'
    × ((k : Bytes)
        → score_of k z'.entries ≡ (
            if str_eq (codes "n") k
            then some (ones.atof (codes "1"))
            else score_of k one_member.entries))
handle_zadd_one_example =
    handle_zadd_one ones Command.zadd (codes "a") (codes "1") (codes "n") one_member (pos 7)
      zset_server one_member-ZSetAt one_member-IsSortedSet refl (omega arith)

m_there : has_member (codes "m") one_member.entries ≡ true
unfolding has_member str_eq
m_there = refl
