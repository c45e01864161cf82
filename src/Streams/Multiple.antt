-- ===== src/Streams/Multiple.antt =====
-- XREAD of several streams.
use codecrafters_redis_c.Base.{
  ℕ, zero, suc, ◌/◌, ◌+◌, drop, ◌<◌, ◌≤◌, Bytes, List, [], ◌∷◌, some, ◌≡◌, refl, arith, inl, inr,
  Option-cases,
}
use codecrafters_redis_c.Outcome.{Outcome, done, undefined}
use codecrafters_redis_c.Resp.Request.{Request}
use codecrafters_redis_c.Server.{Server, Address}
use codecrafters_redis_c.Streams.Words.{Leftover, streams_index, is_multiple_key}
use codecrafters_redis_c.Streams.Xread.{copy_args, handle_multiple_xread, handle_xread}

copy_args-overflow :
    (n cells : ℕ) (args : List Bytes) → cells < n → copy_args n cells args ≡ undefined
unfolding copy_args
copy_args-overflow zero cells args h = absurd (omega arith)
copy_args-overflow (suc n) zero args h = refl
copy_args-overflow (suc n) (suc cells) [] h = refl
copy_args-overflow (suc n) (suc cells) (a ∷ args) h =
    rw (copy_args-overflow n cells args (omega arith)) refl

several :
    (leftover : Leftover) (o : Outcome ℕ) (req : Request) (i n : ℕ)
    → streams_index leftover.in_is_multiple_key 0 req.args ≡ o
    → is_multiple_key leftover req ≡ done (some (i, n))
    → 2 ≤ n
unfolding is_multiple_key
several leftover undefined req i n at h = absurd (ground (arith, at, h))
several leftover (done index) req i n at h = ground (arith, at, h)

-- XREAD with at least two keys and as many ids behind STREAMS writes behind the end of its array of
-- keys, which has half as many cells.
pub handle_xread_overflow :
    (leftover : Leftover) (req : Request) (p : Address) (i n : ℕ) (s : Server)
    → is_multiple_key leftover req ≡ done (some (i, n))
    → handle_xread leftover req p s ≡ undefined
unfolding handle_xread handle_multiple_xread
handle_xread_overflow leftover req p i n s h =
    let two : 2 ≤ n =
      several leftover (streams_index leftover.in_is_multiple_key 0 req.args) req i n refl h in
    elim (Option-cases (s.heap p)) [
      | inl gone ↦ ground (arith, h, gone)
      | inr (c, at) ↦
          ground (
            arith,
            h,
            at,
            copy_args-overflow n (n / 2) (drop (i + 1) req.args) (omega (arith, two)),
          )
    ]
