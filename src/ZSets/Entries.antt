-- ===== src/ZSets/Entries.antt =====
-- The linked list of a sorted set: `zset_remove` and `zset_add`.
use codecrafters_redis_c.Base.{
  ℕ, ◌+◌, ◌-◌, ◌%◌, ◌^◌, Bytes, str_eq, str_lt, List, [], ◌∷◌, Bool, false, ◌&&◌, ◌||◌,
  if◌then◌else◌,
}
use codecrafters_redis_c.Libc.Doubles.{double_lt, double_eq}
use codecrafters_redis_c.Keyspace.{ZSetEntry, ZSet}

-- Whether an entry with the member is in the list.
unfoldable pub has_member : Bytes → List ZSetEntry → Bool
has_member member [] = false
has_member member (e ∷ es) = str_eq e.member member || has_member member es

-- The list without its first entry with the member.
unfoldable pub without : Bytes → List ZSetEntry → List ZSetEntry
without member [] = []
without member (e ∷ es) = if str_eq e.member member then es else e ∷ without member es

-- The set after the call; what it returns is `has_member` on the set before.
unfoldable pub zset_remove : Bytes → ZSet → ZSet
unfolding has_member without
zset_remove member z =
    if has_member member z.entries
    then record { entries = without member z.entries; length = (z.length + (2 ^ 64 - 1)) % 2 ^ 64 }
    else z

-- Whether the walk of `zset_add` goes past an entry.
unfoldable pub goes_past : ℕ → Bytes → ZSetEntry → Bool
goes_past score member e =
    double_lt e.score score || (double_eq e.score score && str_lt e.member member)

unfoldable pub insert : ZSetEntry → List ZSetEntry → List ZSetEntry
unfolding goes_past
insert new [] = new ∷ []
insert new (e ∷ es) = if goes_past new.score new.member e then e ∷ insert new es else new ∷ e ∷ es

unfoldable pub zset_add : ℕ → Bytes → ZSet → ZSet
unfolding insert
zset_add score member z = record {
  entries = insert (record { member = member; score = score }) z.entries;
  length = (z.length + 1) % 2 ^ 64;
}
