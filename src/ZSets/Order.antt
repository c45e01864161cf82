-- ===== src/ZSets/Order.antt =====
-- The order of the entries of a sorted set: by score, then by member.
use codecrafters_redis_c.Base.{
  ℤ, ltb_ℤ, eqb_ℤ, Bytes, [], ◌∷◌, str_eq, str_lt, ◌≡◌, refl, arith, Bool, true, false, ◌&&◌, ◌||◌,
}
use codecrafters_redis_c.Libc.Doubles.{is_nan, double_key, double_lt, double_eq}
use codecrafters_redis_c.Keyspace.{ZSetEntry}
use codecrafters_redis_c.ZSets.Entries.{goes_past}

ltb_ℤ_trans : (x y z : ℤ) → ltb_ℤ x y ≡ true → ltb_ℤ y z ≡ true → ltb_ℤ x z ≡ true
ltb_ℤ_trans x y z h k = ground arith

eqb_ℤ_eq : (x y : ℤ) → eqb_ℤ x y ≡ true → x ≡ y
eqb_ℤ_eq x y h = ground arith

ltb_ℤ_total : (x y : ℤ) → ltb_ℤ x y ≡ false → eqb_ℤ x y ≡ false → ltb_ℤ y x ≡ true
ltb_ℤ_total x y h k = ground arith

eqb_ℤ_sym : (x y : ℤ) → eqb_ℤ x y ≡ eqb_ℤ y x
eqb_ℤ_sym x y = ground arith

str_lt_trans : (a b c : Bytes) → str_lt a b ≡ true → str_lt b c ≡ true → str_lt a c ≡ true
unfolding str_lt
str_lt_trans [] b [] h k = ground (arith, h, k)
str_lt_trans [] b (z ∷ c) h k = refl
str_lt_trans (x ∷ a) [] c h k = ground (arith, h)
str_lt_trans (x ∷ a) (y ∷ b) [] h k = ground (arith, k)
str_lt_trans (x ∷ a) (y ∷ b) (z ∷ c) h k = ground (arith, str_lt_trans a b c, h, k)

str_lt_total : (a b : Bytes) → str_lt a b ≡ false → str_eq a b ≡ false → str_lt b a ≡ true
unfolding str_lt str_eq
str_lt_total [] [] h k = ground (arith, k)
str_lt_total [] (y ∷ b) h k = ground (arith, h)
str_lt_total (x ∷ a) [] h k = refl
str_lt_total (x ∷ a) (y ∷ b) h k = ground (arith, str_lt_total a b, h, k)

-- The score is not a NaN.
abbrev pub IsNumber : ZSetEntry → Type 0
IsNumber e = is_nan e.score ≡ false

-- The order by two integers and then by two strings.
pair_lt : ℤ → Bytes → ℤ → Bytes → Bool
pair_lt x a y b = ltb_ℤ x y || (eqb_ℤ x y && str_lt a b)

pair_lt_trans :
    (x y z : ℤ) (a b c : Bytes)
    → pair_lt x a y b ≡ true
    → pair_lt y b z c ≡ true
    → pair_lt x a z c ≡ true
unfolding pair_lt
pair_lt_trans x y z a b c h k =
    ground
      (arith, ltb_ℤ_trans x y z, eqb_ℤ_eq x y, eqb_ℤ_eq y z, eqb_ℤ_eq x z, str_lt_trans a b c, h, k)

pair_lt_total :
    (x y : ℤ) (a b : Bytes) → pair_lt x a y b ≡ false → str_eq a b ≡ false → pair_lt y b x a ≡ true
unfolding pair_lt
pair_lt_total x y a b h k = ground (arith, ltb_ℤ_total x y, eqb_ℤ_sym x y, str_lt_total a b, h, k)

-- `a` stands before `b`: its score is less, in the order of the numbers that the scores stand for, or
-- the scores are equal and its member is less, byte by byte.
unfoldable pub precedes : ZSetEntry → ZSetEntry → Bool
unfolding pair_lt
precedes a b = pair_lt (double_key a.score) a.member (double_key b.score) b.member

-- For scores that are no NaN, the comparison of `zset_add` is this order.
pub goes_past-precedes :
    (new e : ZSetEntry)
    → IsNumber new
    → IsNumber e
    → goes_past new.score new.member e ≡ precedes e new
unfolding goes_past precedes pair_lt double_lt double_eq
goes_past-precedes new e p q = rw (q, p) refl

pub precedes_trans :
    (a b c : ZSetEntry) → precedes a b ≡ true → precedes b c ≡ true → precedes a c ≡ true
unfolding precedes
precedes_trans a b c h k =
    pair_lt_trans (double_key a.score) (double_key b.score) (double_key c.score) a.member b.member
      c.member h k

pub precedes_total :
    (a b : ZSetEntry)
    → str_eq a.member b.member ≡ false
    → precedes a b ≡ false
    → precedes b a ≡ true
unfolding precedes
precedes_total a b ne h =
    pair_lt_total (double_key a.score) (double_key b.score) a.member b.member h ne
