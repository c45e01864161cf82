-- ===== src/Streams/Words.antt =====
-- `to_upper` of src/handler.c, and the words that XREAD looks for with it: `is_multiple_key` and
-- `hasBlock`. The copy that `to_upper` returns has no terminating NUL, so what the code reads behind
-- it is the byte that `malloc` left there.
use codecrafters_redis_c.Base.{
  ℕ, suc, ◌-◌, ◌/◌, ◌%◌, Bytes, codes, str_eq, List, [], ◌∷◌, ◌++◌, Option, none, some, Bool, false,
  ◌&&◌, length, ltb, leb, ◌==◌, if◌then◌else◌,
}
use codecrafters_redis_c.Outcome.{Outcome, done, undefined}
use codecrafters_redis_c.Libc.{upper}
use codecrafters_redis_c.Libc.Scan.{starts_with, contains}
use codecrafters_redis_c.Resp.Request.{Request}

-- The bytes behind the copies of a request's arguments, by the index of the argument, in the calls
-- from each of the two functions. What `malloc` leaves there is a parameter of the model.
pub record Leftover : Type 0 where
  pub in_is_multiple_key : ℕ → ℕ
  pub in_has_block : ℕ → ℕ

-- strcmp(to_upper(text), word) == 0, where the copy is followed by the byte `after`. A copy that agrees
-- with the start of the word, that byte included, is read past its allocation.
unfoldable pub spells : ℕ → Bytes → Bytes → Outcome Bool
unfolding upper
spells after text word =
    if after == 0
    then done (str_eq (upper text) word)
    else if starts_with (upper text ++ after ∷ []) word
    then undefined
    else done false

-- The index of the first argument that spells STREAMS. Without one the loop reads past the end.
unfoldable pub streams_index : (ℕ → ℕ) → ℕ → List Bytes → Outcome ℕ
unfolding spells
streams_index after i [] = undefined
streams_index after i (a ∷ args) =
    let rest = streams_index after (suc i) args in
    elim (spells (after i) a (codes "STREAMS")) [
      | undefined ↦ undefined
      | done found ↦ if found then done i else rest
    ]

-- The index and the number of streams, if there is more than one.
unfoldable pub is_multiple_key : Leftover → Request → Outcome (Option (ℕ × ℕ))
unfolding streams_index
is_multiple_key leftover req = elim (streams_index leftover.in_is_multiple_key 0 req.args) [
  | undefined ↦ undefined
  | done index ↦
      let n = length req.args - index - 1 in
      done (if n % 2 == 0 && leb 4 n then some (index, n / 2) else none)
]

-- The first argument with BLOCK in it, other than the last one. Each copy that is looked at is given
-- to `printf` and `strstr`, which is undefined without a NUL behind it.
unfoldable pub has_block : (ℕ → ℕ) → ℕ → List Bytes → Outcome (Option ℕ)
unfolding upper
has_block after i [] = done none
has_block after i (a ∷ args) =
    let rest = has_block after (suc i) args in
    if after i == 0
    then (if contains (upper a) (codes "BLOCK") && ltb 0 (length args) then done (some i) else rest)
    else undefined
