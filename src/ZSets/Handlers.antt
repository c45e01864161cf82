-- ===== src/ZSets/Handlers.antt =====
-- ZADD, ZSCORE, ZRANK and ZCARD on a key that has a sorted set.
use codecrafters_redis_c.Base.{
  ℕ, zero, suc, ◌+◌, ◌^◌, ◌<◌, ℤ, Bytes, codes, str_eq, str_eq_iff, str_eq_refl, List, [], ◌∷◌,
  ◌++◌, Option, none, some, ◌≡◌, refl, ◌∙◌, arith, true, false, if◌then◌else◌, length, get_elem?,
  inl, inr, Bool-cases,
}
use codecrafters_redis_c.Outcome.{done}
use codecrafters_redis_c.Libc.{bulk}
use codecrafters_redis_c.Libc.Doubles.{Doubles, is_nan}
use codecrafters_redis_c.Resp.Command.{Command}
use codecrafters_redis_c.Keyspace.{Entry, Table, zset, ZSet, ZSetEntry}
use codecrafters_redis_c.Keyspace.Store.{store_get_entry}
use codecrafters_redis_c.Keyspace.Laws.{store_get_entry-store_put_value}
use codecrafters_redis_c.Server.{Server}
use codecrafters_redis_c.Server.Exec.{formatted}
use codecrafters_redis_c.Lists.Commands.{entry_value, number_reply}
use codecrafters_redis_c.ZSets.Entries.{has_member}
use codecrafters_redis_c.ZSets.Commands.{as_zset, open_zset, replace_entry, handle_zadd}
use codecrafters_redis_c.ZSets.Queries.{
  with_zset, rank_from, nil_reply, score_from, handle_zrank, handle_zscore,
}
use codecrafters_redis_c.ZSets.Members.{score_of}
use codecrafters_redis_c.ZSets.SortedSet.{IsSortedSet}
use codecrafters_redis_c.ZSets.Scores.{replace_entry-IsSortedSet}

-- The key has an entry whose value is the sorted set.
pub record ZSetAt (key : Bytes) (z : ZSet) (table : Table) : Type 0 where
  pub entry : Entry
  pub found : store_get_entry key table ≡ done (some entry)
  pub value : entry.value ≡ zset z

-- ZADD of one member, with a score that is no NaN, to a key with a sorted set of fewer than 2^64 - 1
-- members returns; the client gets 1 for a new member and 0 for an old one, and the key then has a
-- sorted set in which the member has the new score and all others have their old scores.
pub handle_zadd_one :
    (doubles : Doubles) (c : Command) (key text member : Bytes) (z : ZSet) (fd : ℤ) (s : Server)
    → ZSetAt key z s.table
    → IsSortedSet z
    → is_nan (doubles.atof text) ≡ false
    → length z.entries + 1 < 2 ^ 64
    → (table : Table) × (z' : ZSet) × (handle_zadd doubles
          (record { command = c; args = key ∷ text ∷ member ∷ [] })
          fd
          s
        ≡ done (
          tt,
          record s {
            table = table;
            sent =
                s.sent
                ++ (fd, (if has_member member z.entries then codes ":0\r\n" else codes ":1\r\n"))
                  ∷ [];
          },
        ))
      × ZSetAt key z' table
      × IsSortedSet z'
      × ((k : Bytes)
          → score_of k z'.entries
            ≡ (if str_eq member k then some (doubles.atof text) else score_of k z.entries))
unfolding handle_zadd open_zset as_zset
handle_zadd_one doubles c key text member z fd s at w number room =
    let z' = replace_entry (doubles.atof text) member z in
    let (sorted, scores, _) =
      replace_entry-IsSortedSet (doubles.atof text) member z number room w in
    let (table, written, law) =
      store_get_entry-store_put_value key (zset z') at.entry s.table at.found in
    (
      table,
      z',
      ground (arith, at.found, at.value, written),
      record {
        entry = record at.entry { value = zset z' };
        found = law key ∙ rw (str_eq_refl key);
        value = refl;
      },
      sorted,
      scores,
    )

-- The loop of ZSCORE over a whole list finds the score.
score_from-score_of :
    (member : Bytes) (es : List ZSetEntry)
    → score_from (length es) es member ≡ done (score_of member es)
unfolding score_from score_of
score_from-score_of member [] = refl
score_from-score_of member (e ∷ es) =
    ground
      (arith, score_from-score_of member es, str_eq_iff member e.member, str_eq_iff e.member member)

-- The reply of ZSCORE to a score, or to none.
abbrev pub score_reply : Doubles → Option ℕ → Bytes
score_reply doubles none = nil_reply
score_reply doubles (some score) = formatted 128 (bulk (formatted 64 (doubles.print_17g score)))

-- ZSCORE on a key with a sorted set returns, and answers the member's score as `%.17g` prints it, or
-- nil for no member.
pub handle_zscore_lem :
    (doubles : Doubles) (c : Command) (key member : Bytes) (z : ZSet) (fd : ℤ) (s : Server)
    → ZSetAt key z s.table
    → IsSortedSet z
    → handle_zscore doubles (record { command = c; args = key ∷ member ∷ [] }) fd s
      ≡ done (
        tt,
        record s { sent = s.sent ++ (fd, score_reply doubles (score_of member z.entries)) ∷ [] },
      )
unfolding handle_zscore with_zset as_zset entry_value
handle_zscore_lem doubles c key member z fd s at w =
    ground (arith, at.found, at.value, w.size, score_from-score_of member z.entries)

-- The loop of ZRANK over a whole list.
rank_from_lem :
    (member : Bytes) (i : ℕ) (es : List ZSetEntry)
    → has_member member es ≡ true
    → (j : ℕ) × (e : ZSetEntry) × (rank_from (length es) i es member ≡ some (i + j))
      × (get_elem? es j ≡ some e)
      × (e.member ≡ member)
unfolding rank_from has_member
rank_from_lem member i [] h = ground (arith, h)
rank_from_lem member i (e ∷ es) h = elim (Bool-cases (str_eq e.member member)) [
  | inl hit ↦
      let same = (str_eq_iff e.member member).0 hit in
      (zero, e, ground (arith, str_eq_iff member e.member, same), refl, same)
  | inr miss ↦
      let (j, d, found, at, same) = rank_from_lem member (i + 1) es (ground (arith, miss, h)) in
      (
        suc j,
        d,
        ground (arith, found, miss, str_eq_iff member e.member, str_eq_iff e.member member),
        at,
        same,
      )
]

-- ZRANK of a member of the sorted set at a key returns, and answers the index at which the member
-- stands in the order of the set.
pub handle_zrank_lem :
    (c : Command) (key member : Bytes) (z : ZSet) (fd : ℤ) (s : Server)
    → ZSetAt key z s.table
    → IsSortedSet z
    → has_member member z.entries ≡ true
    → (j : ℕ) × (e : ZSetEntry) × (handle_zrank
          (record { command = c; args = key ∷ member ∷ [] })
          fd
          s
        ≡ done (tt, record s { sent = s.sent ++ (fd, formatted 64 (number_reply j)) ∷ [] }))
      × (get_elem? z.entries j ≡ some e)
      × (e.member ≡ member)
unfolding handle_zrank with_zset as_zset entry_value
handle_zrank_lem c key member z fd s at w there =
    let (j, e, found, stands, same) = rank_from_lem member 0 z.entries there in
    (j, e, ground (arith, at.found, at.value, w.size, found), stands, same)
