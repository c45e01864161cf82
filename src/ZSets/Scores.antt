-- ===== src/ZSets/Scores.antt =====
-- The score of a member after ZADD and ZREM, and the loops of these commands over several members.
use codecrafters_redis_c.Base.{
  ℕ, ◌+◌, ◌^◌, ◌<◌, Bytes, str_eq, str_eq_iff, List, [], ◌∷◌, none, some, ◌≡◌, refl, ◌∙◌, arith,
  false, if◌then◌else◌, length,
}
use codecrafters_redis_c.Libc.Doubles.{is_nan}
use codecrafters_redis_c.Keyspace.{ZSetEntry, ZSet}
use codecrafters_redis_c.ZSets.Entries.{has_member, without, insert, zset_remove, zset_add}
use codecrafters_redis_c.ZSets.Commands.{replace_entry, zrem_all}
use codecrafters_redis_c.ZSets.Members.{IsDistinct, score_of, length-without, length-insert}
use codecrafters_redis_c.ZSets.SortedSet.{
  IsSortedSet, zset_remove-IsSortedSet, zset_add-IsSortedSet,
}

score_of-absent : (k : Bytes) (es : List ZSetEntry) → has_member k es ≡ false → score_of k es ≡ none
unfolding score_of has_member
score_of-absent k [] h = refl
score_of-absent k (e ∷ es) h = ground (arith, score_of-absent k es, h)

score_of-without :
    (k member : Bytes) (es : List ZSetEntry)
    → IsDistinct es
    → score_of k (without member es) ≡ (if str_eq member k then none else score_of k es)
unfolding score_of without
score_of-without k member [] h = ground arith
score_of-without k member (e ∷ es) (p, h) = ground (
  arith,
  str_eq_iff e.member member,
  str_eq_iff e.member k,
  str_eq_iff member k,
  score_of-without k member es h,
  score_of-absent e.member es p,
)

score_of-insert :
    (k : Bytes) (new : ZSetEntry) (es : List ZSetEntry)
    → has_member new.member es ≡ false
    → score_of k (insert new es) ≡ (if str_eq new.member k then some new.score else score_of k es)
unfolding score_of insert has_member
score_of-insert k new [] h = refl
score_of-insert k new (e ∷ es) h = ground (
  arith,
  str_eq_iff e.member new.member,
  str_eq_iff e.member k,
  str_eq_iff new.member k,
  score_of-insert k new es,
  h,
)

score_of-zset_remove :
    (k member : Bytes) (z : ZSet)
    → IsSortedSet z
    → score_of k (zset_remove member z).entries
      ≡ (if str_eq member k then none else score_of k z.entries)
unfolding zset_remove
score_of-zset_remove k member z w = ground (
  arith,
  score_of-without k member z.entries w.distinct,
  score_of-absent member z.entries,
  str_eq_iff member k,
)

-- The number of entries after `zset_remove`.
length-zset_remove :
    (member : Bytes) (z : ZSet)
    → length z.entries
      ≡ length (zset_remove member z).entries + (if has_member member z.entries then 1 else 0)
unfolding zset_remove
length-zset_remove member z = ground (arith, length-without member z.entries)

-- One step of ZADD, with a score that is no NaN, on a sorted set of fewer than 2^64 - 1 members, which
-- stand in ascending order of their scores, and of their names where the scores are equal: the result
-- is a sorted set in that order, with the new score for the member and the old score for all others,
-- and it has one member more if the member is new and as many as before otherwise.
pub replace_entry-IsSortedSet :
    (score : ℕ) (member : Bytes) (z : ZSet)
    → is_nan score ≡ false
    → length z.entries + 1 < 2 ^ 64
    → IsSortedSet z
    → IsSortedSet (replace_entry score member z)
      × ((k : Bytes)
          → score_of k (replace_entry score member z).entries
            ≡ (if str_eq member k then some score else score_of k z.entries))
      × (length (replace_entry score member z).entries
          ≡ length z.entries + (if has_member member z.entries then 0 else 1))
unfolding zset_add
replace_entry-IsSortedSet score member z number room w =
    let (kept, absent) = zset_remove-IsSortedSet member z w in
    let shorter = length-zset_remove member z in
    let new : ZSetEntry = record { member = member; score = score } in
    (
      zset_add-IsSortedSet score member (zset_remove member z) number absent
          (ground (arith, shorter, room)) kept,
      λ k. ground (
        arith,
        score_of-insert k new (zset_remove member z).entries absent,
        score_of-zset_remove k member z w,
      ),
      ground (arith, length-insert new (zset_remove member z).entries, shorter),
    )

-- The loop of ZREM on a sorted set: the result is a sorted set, and the reply counts the entries that
-- are gone.
pub zrem_all-IsSortedSet :
    (members : List Bytes) (z : ZSet) (removed : ℕ)
    → IsSortedSet z
    → IsSortedSet (zrem_all members z removed).0
      × ((zrem_all members z removed).1 + length (zrem_all members z removed).0.entries
          ≡ removed + length z.entries)
unfolding zrem_all
zrem_all-IsSortedSet [] z removed w = (w, refl)
zrem_all-IsSortedSet (member ∷ members) z removed w =
    let (kept, _) = zset_remove-IsSortedSet member z w in
    let counted = if has_member member z.entries then removed + 1 else removed in
    let (sorted, count) = zrem_all-IsSortedSet members (zset_remove member z) counted kept in
    (sorted, count ∙ ground (arith, length-zset_remove member z))
