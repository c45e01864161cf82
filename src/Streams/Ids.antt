-- ===== src/Streams/Ids.antt =====
-- The ids of stream entries: `isBigger` of src/utils.c, `validate_stream_id` and `generateId` of
-- src/handler.c.
use codecrafters_redis_c.Base.{
  ℕ, ◌^◌, ◌-◌, ℤ, pos, ◌+ℤ◌, ltb_ℤ, leb_ℤ, eqb_ℤ, Bytes, codes, str_eq, [], ◌∷◌, ◌++◌, Option, none,
  some, Bool, not, ◌&&◌, ◌||◌, if◌then◌else◌,
}
use codecrafters_redis_c.Outcome.{Outcome, done, undefined, deref, ◌>>=◌}
use codecrafters_redis_c.Libc.{atoi, print_int}
use codecrafters_redis_c.Libc.Scan.{scan_llong, scan_pair, scan_words, contains}
use codecrafters_redis_c.Keyspace.{Stream}

-- checkMS > srcMs || (checkMS == srcMs && checkSeq > srcSeq)
unfoldable pub id_lt : ℤ → ℤ → ℤ → ℤ → Bool
id_lt src_ms src_seq check_ms check_seq =
    ltb_ℤ src_ms check_ms || (eqb_ℤ check_ms src_ms && ltb_ℤ src_seq check_seq)

-- Whether `check_id` is after `src_id`. A number that `sscanf` did not store is undefined.
unfoldable pub is_bigger : Bytes → Bytes → Outcome Bool
unfolding id_lt
is_bigger src_id check_id = do
  src ← scan_pair src_id
  check ← scan_pair check_id
  src_ms ← deref src.first
  src_seq ← deref src.second
  check_ms ← deref check.first
  check_seq ← deref check.second
  done (id_lt src_ms src_seq check_ms check_seq)

abbrev pub invalid_id : Bytes
invalid_id = codes "-ERR Invalid stream ID specified\r\n"

abbrev pub zero_id : Bytes
zero_id = codes "-ERR The ID specified in XADD must be greater than 0-0\r\n"

abbrev pub small_id : Bytes
small_id =
    codes "-ERR The ID specified in XADD is equal or smaller than the target stream top item\r\n"

-- The part of the function behind the tests for `*`.
unfoldable pub validate_numbers : Bytes → Bytes → Outcome (Option Bytes)
unfolding is_bigger
validate_numbers id tail_id = do
  pair ← scan_pair id
  elim pair.first [
    | none ↦ done (some invalid_id)
    | some ms ↦ elim pair.second [
      | none ↦ done (some invalid_id)
      | some seq ↦
          if eqb_ℤ ms (pos 0) && eqb_ℤ seq (pos 0)
          then done (some zero_id)
          else (do bigger ← is_bigger tail_id id; done (if bigger then none else some small_id))
    ]
  ]

-- seq is "*": `atoi(ms)` is read only then.
unfoldable pub validate_star : Bytes → Bytes → Bytes → Outcome (Option Bytes)
unfolding validate_numbers
validate_star ms id tail_id = do
  number ← atoi ms
  if leb_ℤ (pos 0) number
      then (do
        parsed ← scan_llong ms
        done (elim parsed [ none ↦ some invalid_id | some _ ↦ none ]))
      else validate_numbers id tail_id

-- `none` for a valid id, or else the error message.
unfoldable pub validate_stream_id : Bytes → Bytes → Outcome (Option Bytes)
unfolding validate_star
validate_stream_id id tail_id =
    if str_eq id (codes "*")
    then done none
    else if not (contains id (codes "-"))
    then done (some invalid_id)
    else (do
      let words = scan_words id
      ms ← deref (words.0)
      if str_eq ms (codes "*") then done (some invalid_id) else (do
        seq ← deref (words.1)
        if str_eq seq (codes "*")
            then validate_star ms id tail_id
            else validate_numbers id tail_id))

-- last_seq + 1, which is undefined at the greatest `long long`
unfoldable pub next_seq : ℤ → Outcome ℤ
unfolding ◌+ℤ◌
next_seq seq = if eqb_ℤ seq (pos (2 ^ 63 - 1)) then undefined else done (seq +ℤ pos 1)

-- "%lld-%lld"
unfoldable pub print_id : ℤ → ℤ → Bytes
print_id ms seq = print_int ms ++ b'-' ∷ print_int seq

abbrev pub first_seq : ℤ → ℤ
first_seq ms = if eqb_ℤ ms (pos 0) then pos 1 else pos 0

-- The numbers of the id that replaces one with `*`, at the time `now`.
unfoldable pub generate_id : Stream → Bytes → ℕ → Outcome (ℤ × ℤ)
unfolding next_seq
generate_id stream id now =
    if contains id (codes "-*")
    then (do
      parsed ← scan_llong id
      (ms, rest) ← deref parsed
      if eqb_ℤ ms stream.last_ms
          then (do seq ← next_seq stream.last_seq; done (ms, seq))
          else done (ms, first_seq ms))
    else elim stream.entries as (λ _. Outcome (ℤ × ℤ)) [
      | [] ↦ done (pos now, first_seq (pos now))
      | _ ∷ _ ↦
          if ltb_ℤ stream.last_ms (pos now)
          then done (pos now, pos 0)
          else (do seq ← next_seq stream.last_seq; done (stream.last_ms, seq))
    ]
