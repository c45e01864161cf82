-- ===== src/Streams/Spelling.antt =====
-- What XREAD finds with `to_upper` of src/handler.c, by the bytes behind the copies.
use codecrafters_redis_c.Base.{
  ℕ, suc, Bytes, codes, str_eq, List, [], ◌∷◌, none, some, ◌≡◌, ◌≢◌, refl, arith, true, false, ◌==◌,
  ==_iff, ◌++◌, inl, inr, Bool-cases, if◌then◌else◌,
}
use codecrafters_redis_c.Outcome.{Outcome, done, undefined}
use codecrafters_redis_c.Libc.{upper}
use codecrafters_redis_c.Libc.Scan.{contains, starts_with}
use codecrafters_redis_c.Resp.Command.{Command}
use codecrafters_redis_c.Resp.Request.{Request}
use codecrafters_redis_c.Server.{Server, Address}
use codecrafters_redis_c.Streams.Words.{Leftover, spells, streams_index, is_multiple_key, has_block}
use codecrafters_redis_c.Streams.Xread.{handle_xread}

-- XREAD BLOCK 0 STREAMS key $
abbrev pub block_args : Bytes → List Bytes
block_args key = codes "BLOCK" ∷ codes "0" ∷ codes "STREAMS" ∷ key ∷ codes "$" ∷ []

-- The bytes that decide what XREAD finds in these arguments are NUL: the one behind the copy of
-- STREAMS in `is_multiple_key`, and the one behind the copy of BLOCK in `hasBlock`.
pub record EndsWords (leftover : Leftover) : Type 0 where
  pub streams_ends : leftover.in_is_multiple_key 2 ≡ 0
  pub block_ends : leftover.in_has_block 0 ≡ 0

block_differs : (after : ℕ) → spells after (codes "BLOCK") (codes "STREAMS") ≡ done false
unfolding spells upper str_eq
block_differs after = elim (Bool-cases (after == 0)) [
  | inl nul ↦ rw nul refl
  | inr other ↦ rw other refl
]

zero_differs : (after : ℕ) → spells after (codes "0") (codes "STREAMS") ≡ done false
unfolding spells upper str_eq
zero_differs after = elim (Bool-cases (after == 0)) [
  | inl nul ↦ rw nul refl
  | inr other ↦ rw other refl
]

streams_spelt : spells 0 (codes "STREAMS") (codes "STREAMS") ≡ done true
unfolding spells upper str_eq
streams_spelt = refl

-- With STREAMS and one stream there is no second one.
pub single :
    (leftover : Leftover) (cmd : Command) (key : Bytes)
    → EndsWords leftover
    → is_multiple_key leftover (record { command = cmd; args = block_args key }) ≡ done none
unfolding is_multiple_key streams_index
single leftover cmd key ends = ground (
  arith,
  block_differs (leftover.in_is_multiple_key 0),
  zero_differs (leftover.in_is_multiple_key 1),
  ends.streams_ends,
  streams_spelt,
)

pub block_found :
    (leftover : Leftover) (key : Bytes)
    → EndsWords leftover
    → has_block leftover.in_has_block 0 (block_args key) ≡ done (some 0)
unfolding has_block upper contains
block_found leftover key ends = rw ends.block_ends refl

-- Without a NUL behind the copy no text spells a word.
never_spelt :
    (after : ℕ) (text word : Bytes) (i : ℕ) (rest : Outcome ℕ)
    → after ≢ 0
    → rest ≡ undefined
    → elim (spells after text word) [
      | undefined ↦ undefined
      | done found ↦ if found then done i else rest
    ]
      ≡ undefined
unfolding spells
never_spelt after text word i rest h k = elim (Bool-cases (after == 0)) [
  | inl nul ↦ absurd (h ((==_iff after 0).0 nul))
  | inr other ↦ elim (Bool-cases (starts_with (upper text ++ after ∷ []) word)) [
    | inl past ↦ rw (other, past) refl
    | inr apart ↦ rw (other, apart) k
  ]
]

never_found :
    (after : ℕ → ℕ) (i : ℕ) (args : List Bytes)
    → ((j : ℕ) → after j ≢ 0)
    → streams_index after i args ≡ undefined
unfolding streams_index
never_found after i [] h = refl
never_found after i (a ∷ args) h =
    never_spelt (after i) a (codes "STREAMS") i (streams_index after (suc i) args) (h i)
      (never_found after (suc i) args h)

-- When `malloc` leaves no zero byte behind the copies that `to_upper` makes for `is_multiple_key`,
-- XREAD is undefined, whatever its arguments are: no copy spells STREAMS, and the loop reads past the
-- arguments, if no copy was read past its end before.
pub handle_xread_unterminated :
    (leftover : Leftover) (req : Request) (p : Address) (s : Server)
    → ((i : ℕ) → leftover.in_is_multiple_key i ≢ 0)
    → handle_xread leftover req p s ≡ undefined
unfolding handle_xread is_multiple_key
handle_xread_unterminated leftover req p s h =
    ground (arith, never_found leftover.in_is_multiple_key 0 req.args h)
