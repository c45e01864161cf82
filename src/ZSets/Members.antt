-- ===== src/ZSets/Members.antt =====
-- The members of a sorted set after `zset_remove` and `zset_add`.
use codecrafters_redis_c.Base.{
  ℕ, suc, Bytes, str_eq, str_eq_iff, List, [], ◌∷◌, Option, none, some, ◌≡◌, refl, arith, true,
  false, ◌||◌, if◌then◌else◌, length, All, inl, inr, Bool-cases,
}
use codecrafters_redis_c.Keyspace.{ZSetEntry}
use codecrafters_redis_c.ZSets.Entries.{has_member, without, goes_past, insert}
use codecrafters_redis_c.ZSets.Order.{precedes}

-- No member is in the list twice.
abbrev pub IsDistinct : List ZSetEntry → Type 0
IsDistinct [] = Unit
IsDistinct (e ∷ es) = (has_member e.member es ≡ false) × IsDistinct es

-- Every entry stands before all later ones.
abbrev pub IsSorted : List ZSetEntry → Type 0
IsSorted [] = Unit
IsSorted (e ∷ es) = All (λ x. precedes e x ≡ true) es × IsSorted es

-- The score of a member.
unfoldable pub score_of : Bytes → List ZSetEntry → Option ℕ
score_of member [] = none
score_of member (e ∷ es) = if str_eq e.member member then some e.score else score_of member es

pub All-without :
    (P : ZSetEntry → Type 0) (member : Bytes) (es : List ZSetEntry)
    → All P es
    → All P (without member es)
unfolding without
All-without P member [] h = tt
All-without P member (e ∷ es) (p, h) = elim (Bool-cases (str_eq e.member member)) [
  | inl hit ↦ rw hit h
  | inr miss ↦ rw miss (p, All-without P member es h)
]

pub All-insert :
    (P : ZSetEntry → Type 0) (new : ZSetEntry) (es : List ZSetEntry)
    → P new
    → All P es
    → All P (insert new es)
unfolding insert
All-insert P new [] q h = (q, tt)
All-insert P new (e ∷ es) q (p, h) = elim (Bool-cases (goes_past new.score new.member e)) [
  | inl on ↦ rw on (p, All-insert P new es q h)
  | inr here ↦ rw here (q, (p, h))
]

pub has_member-without :
    (k member : Bytes) (es : List ZSetEntry)
    → has_member k es ≡ false
    → has_member k (without member es) ≡ false
unfolding without has_member
has_member-without k member [] h = refl
has_member-without k member (e ∷ es) h = ground (arith, has_member-without k member es, h)

pub has_member-insert :
    (k : Bytes) (new : ZSetEntry) (es : List ZSetEntry)
    → has_member k (insert new es) ≡ (str_eq new.member k || has_member k es)
unfolding insert has_member
has_member-insert k new [] = refl
has_member-insert k new (e ∷ es) = ground (arith, has_member-insert k new es)

pub removed_absent :
    (member : Bytes) (es : List ZSetEntry)
    → IsDistinct es
    → has_member member (without member es) ≡ false
unfolding without has_member
removed_absent member [] h = refl
removed_absent member (e ∷ es) (p, h) =
    ground (arith, str_eq_iff e.member member, removed_absent member es h, p)

pub without-IsDistinct :
    (member : Bytes) (es : List ZSetEntry) → IsDistinct es → IsDistinct (without member es)
unfolding without
without-IsDistinct member [] h = tt
without-IsDistinct member (e ∷ es) (p, h) = elim (Bool-cases (str_eq e.member member)) [
  | inl hit ↦ rw hit h
  | inr miss ↦ rw miss (has_member-without e.member member es p, without-IsDistinct member es h)
]

pub without-IsSorted :
    (member : Bytes) (es : List ZSetEntry) → IsSorted es → IsSorted (without member es)
unfolding without
without-IsSorted member [] h = tt
without-IsSorted member (e ∷ es) (p, h) = elim (Bool-cases (str_eq e.member member)) [
  | inl hit ↦ rw hit h
  | inr miss ↦
      rw miss (All-without (λ x. precedes e x ≡ true) member es p, without-IsSorted member es h)
]

pub length-without :
    (member : Bytes) (es : List ZSetEntry)
    → has_member member es ≡ true
    → length es ≡ suc (length (without member es))
unfolding without has_member
length-without member [] h = ground (arith, h)
length-without member (e ∷ es) h = ground (arith, length-without member es, h)

pub length-insert :
    (new : ZSetEntry) (es : List ZSetEntry) → length (insert new es) ≡ suc (length es)
unfolding insert
length-insert new [] = refl
length-insert new (e ∷ es) = ground (arith, length-insert new es)

pub insert-IsDistinct :
    (new : ZSetEntry) (es : List ZSetEntry)
    → has_member new.member es ≡ false
    → IsDistinct es
    → IsDistinct (insert new es)
unfolding insert has_member
insert-IsDistinct new [] absent h = (refl, tt)
insert-IsDistinct new (e ∷ es) absent (p, h) =
    elim (Bool-cases (goes_past new.score new.member e)) [
      | inl on ↦ rw on (
        ground (
          arith,
          has_member-insert e.member new es,
          p,
          absent,
          str_eq_iff e.member new.member,
          str_eq_iff new.member e.member,
        ),
        insert-IsDistinct new es (ground (arith, absent)) h,
      )
      | inr here ↦ rw here (absent, (p, h))
    ]
