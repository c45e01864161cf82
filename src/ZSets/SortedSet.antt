-- ===== src/ZSets/SortedSet.antt =====
-- The invariant of a sorted set, and what ZADD and ZREM do with an entry.
use codecrafters_redis_c.Base.{
  ℕ, ◌+◌, ◌-◌, ◌%◌, ◌^◌, ◌<◌, Bytes, List, [], ◌∷◌, ◌≡◌, sym, ◌∙◌, arith, true, false, length, All,
  inl, inr, Bool-cases,
}
use codecrafters_redis_c.Libc.Doubles.{is_nan}
use codecrafters_redis_c.Keyspace.{ZSetEntry, ZSet}
use codecrafters_redis_c.ZSets.Entries.{
  has_member, without, goes_past, insert, zset_remove, zset_add,
}
use codecrafters_redis_c.ZSets.Order.{
  precedes, precedes_trans, precedes_total, goes_past-precedes, IsNumber,
}
use codecrafters_redis_c.ZSets.Members.{
  IsDistinct, IsSorted, All-without, All-insert, removed_absent, without-IsDistinct,
  without-IsSorted, length-without, length-insert, insert-IsDistinct,
}

-- What stands after an entry stands after each entry before that one.
All-precedes :
    (a b : ZSetEntry) (es : List ZSetEntry)
    → precedes a b ≡ true
    → All (λ x. precedes b x ≡ true) es
    → All (λ x. precedes a x ≡ true) es
All-precedes a b [] h after = tt
All-precedes a b (e ∷ es) h (first, after) =
    (precedes_trans a b e h first, All-precedes a b es h after)

insert-IsSorted :
    (new : ZSetEntry) (es : List ZSetEntry)
    → IsNumber new
    → All IsNumber es
    → has_member new.member es ≡ false
    → IsSorted es
    → IsSorted (insert new es)
unfolding insert has_member
insert-IsSorted new [] p numbers absent h = (tt, tt)
insert-IsSorted new (e ∷ es) p (q, numbers) absent (after, h) =
    let order = goes_past-precedes new e p q in
    elim (Bool-cases (goes_past new.score new.member e)) [
      | inl on ↦ rw on (
        All-insert (λ x. precedes e x ≡ true) new es (sym order ∙ on) after,
        insert-IsSorted new es p numbers (ground (arith, absent)) h,
      )
      | inr here ↦
          let first : precedes new e ≡ true =
            precedes_total e new (ground (arith, absent)) (sym order ∙ here) in
          rw here ((first, All-precedes new e es first after), (after, h))
    ]

-- The entries are in order, no member is there twice, no score is a NaN, and `length` is the number
-- of the entries.
pub record IsSortedSet (z : ZSet) : Type 0 where
  pub numbers : All IsNumber z.entries
  pub sorted : IsSorted z.entries
  pub distinct : IsDistinct z.entries
  pub size : z.length ≡ length z.entries
  pub small : length z.entries < 2 ^ 64

-- `zset_remove` keeps the invariant, and the member is gone.
pub zset_remove-IsSortedSet :
    (member : Bytes) (z : ZSet)
    → IsSortedSet z
    → IsSortedSet (zset_remove member z)
      × (has_member member (zset_remove member z).entries ≡ false)
unfolding zset_remove
zset_remove-IsSortedSet member z w = elim (Bool-cases (has_member member z.entries)) [
  | inr absent ↦ rw absent (w, absent)
  | inl there ↦
      let shorter = length-without member z.entries there in
      let size : (z.length + (2 ^ 64 - 1)) % 2 ^ 64 ≡ length (without member z.entries) =
        ground (arith, w.size, w.small, shorter) in
      rw there (
        record {
          numbers = All-without IsNumber member z.entries w.numbers;
          sorted = without-IsSorted member z.entries w.sorted;
          distinct = without-IsDistinct member z.entries w.distinct;
          size = size;
          small = ground (arith, w.small, shorter);
        },
        removed_absent member z.entries w.distinct,
      )
]

-- `zset_add` of a new member with a score that is no NaN keeps the invariant, below 2^64 entries.
pub zset_add-IsSortedSet :
    (score : ℕ) (member : Bytes) (z : ZSet)
    → is_nan score ≡ false
    → has_member member z.entries ≡ false
    → length z.entries + 1 < 2 ^ 64
    → IsSortedSet z
    → IsSortedSet (zset_add score member z)
unfolding zset_add
zset_add-IsSortedSet score member z number absent room w =
    let new : ZSetEntry = record { member = member; score = score } in
    let longer = length-insert new z.entries in
    record {
      numbers = All-insert IsNumber new z.entries number w.numbers;
      sorted = insert-IsSorted new z.entries number w.numbers absent w.sorted;
      distinct = insert-IsDistinct new z.entries absent w.distinct;
      size = ground (arith, w.size, room, longer);
      small = ground (arith, room, longer);
    }
