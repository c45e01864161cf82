-- ===== src/ZSets/Queries.antt =====
-- ZRANK, ZRANGE, ZCARD, ZSCORE: `handle_zrank`, `handle_zrange`, `handle_zcard`, `handle_zscore`.
use codecrafters_redis_c.Base.{
  ℕ, zero, suc, ◌+◌, ◌-◌, ◌%◌, ◌^◌, ℤ, pos, negsuc, pos_part, sub_ℕ, ◌+ℤ◌, ltb_ℤ, leb_ℤ, Bytes,
  codes, crlf, str_eq, List, [], ◌∷◌, ◌++◌, Option, none, some, true, false, ◌||◌, length, ltb,
  if◌then◌else◌,
}
use codecrafters_redis_c.Outcome
use codecrafters_redis_c.Outcome.{Outcome, done, undefined}
use codecrafters_redis_c.Libc.{atoi, print_nat, bulk}
use codecrafters_redis_c.Libc.Doubles.{Doubles}
use codecrafters_redis_c.Resp.Request.{Request}
use codecrafters_redis_c.Keyspace.{ZSetEntry, ZSet}
use codecrafters_redis_c.Keyspace.Store.{store_get_entry}
use codecrafters_redis_c.Server.Exec.{Exec, ◌>>=◌, pure, lift, send, formatted, from_table, arg}
use codecrafters_redis_c.Lists.Commands.{entry_value, is_null, number_reply}
use codecrafters_redis_c.ZSets.Commands.{as_zset}

-- The common start of these handlers: the reply for a missing key, or the sorted set.
unfoldable pub with_zset : Request → ℕ → Bytes → (ZSet → Exec (Unit {0})) → ℤ → Exec (Unit {0})
unfolding entry_value as_zset
with_zset req argc missing body client_fd = if ltb (length req.args) argc then pure tt else (do
  key ← arg req 0
  entry ← from_table (store_get_entry key)
  if is_null (entry_value entry)
      then send client_fd missing
      else (do z ← lift (as_zset (entry_value entry)); body z))

-- The loop of ZRANK, over at most `rounds` entries: the index of the member.
unfoldable pub rank_from : ℕ → ℕ → List ZSetEntry → Bytes → Option ℕ
rank_from zero i es member = none
rank_from (suc rounds) i [] member = none
rank_from (suc rounds) i (e ∷ es) member =
    if str_eq member e.member then some i else rank_from rounds (i + 1) es member

abbrev pub nil_reply : Bytes
nil_reply = codes "$-1\r\n"

unfoldable pub handle_zrank : Request → ℤ → Exec (Unit {0})
unfolding with_zset rank_from
handle_zrank req client_fd =
    with_zset req 2 nil_reply
      (λ z. do
        member ← arg req 1
        elim (rank_from z.length 0 z.entries member) [
          | some i ↦ send client_fd (formatted 64 (number_reply i))
          | none ↦ send client_fd nil_reply
        ])
      client_fd

-- (int) length
unfoldable pub int_of_size : ℕ → ℤ
int_of_size n = if ltb (n % 2 ^ 32) (2 ^ 31) then pos (n % 2 ^ 32) else sub_ℕ (n % 2 ^ 32) (2 ^ 32)

-- A negative index counts from the end.
unfoldable pub from_back : ℤ → ℤ → ℤ
unfolding ◌+ℤ◌
from_back index set_len = if ltb_ℤ index (pos 0) then index +ℤ set_len else index

-- `ptr` after `n` steps, the first entries of the list having to be there.
unfoldable pub walk : ℕ → List ZSetEntry → Outcome (List ZSetEntry)
walk zero es = done es
walk (suc n) [] = undefined
walk (suc n) (e ∷ es) = walk n es

-- The loop over `n` entries, up to the first that does not fit the 4096 bytes.
unfoldable pub members_text : ℕ → List ZSetEntry → Bytes → Outcome Bytes
members_text zero es text = done text
members_text (suc n) [] text = undefined
members_text (suc n) (e ∷ es) text = elim (ltb (length (text ++ bulk e.member)) 4096) [
  | true ↦ members_text n es (text ++ bulk e.member)
  | false ↦ done text
]

unfoldable pub zrange_reply : ZSet → ℤ → ℤ → Outcome Bytes
unfolding int_of_size from_back walk members_text
zrange_reply z start end =
    let set_len = int_of_size z.length in
    let from = from_back start set_len in
    let first = if ltb_ℤ from (pos 0) then pos 0 else from in
    let to = from_back end set_len in
    let last = if leb_ℤ set_len to then set_len +ℤ negsuc 0 else to in
    if ltb_ℤ last first || leb_ℤ set_len first
    then done (codes "*0\r\n")
    else (let count = pos_part last + 1 - pos_part first in
        Outcome.◌>>=◌ (walk (pos_part first) z.entries)
          λ es. members_text count es (b'*' ∷ (print_nat count ++ crlf)))

unfoldable pub handle_zrange : Request → ℤ → Exec (Unit {0})
unfolding with_zset
handle_zrange req client_fd =
    with_zset req 3 (codes "*0\r\n")
      (λ z. do
        start_text ← arg req 1
        end_text ← arg req 2
        start ← lift (atoi start_text)
        end ← lift (atoi end_text)
        reply ← lift (zrange_reply z start end)
        send client_fd reply)
      client_fd

unfoldable pub handle_zcard : Request → ℤ → Exec (Unit {0})
unfolding with_zset
handle_zcard req client_fd =
    with_zset req 1 (codes ":0\r\n") (λ z. send client_fd (formatted 128 (number_reply z.length)))
      client_fd

-- The loop of ZSCORE, over `rounds` entries, which have to be there.
unfoldable pub score_from : ℕ → List ZSetEntry → Bytes → Outcome (Option ℕ)
score_from zero es member = done none
score_from (suc rounds) [] member = undefined
score_from (suc rounds) (e ∷ es) member =
    if str_eq member e.member then done (some e.score) else score_from rounds es member

module _ (doubles : Doubles) where
  open doubles use {print_17g}

  unfoldable pub handle_zscore : Request → ℤ → Exec (Unit {0})
  unfolding with_zset score_from
  handle_zscore req client_fd =
      with_zset req 2 nil_reply
        (λ z. do
          member ← arg req 1
          found ← lift (score_from z.length z.entries member)
          elim found [
            | some score ↦ send client_fd (formatted 128 (bulk (formatted 64 (print_17g score))))
            | none ↦ send client_fd nil_reply
          ])
        client_fd
