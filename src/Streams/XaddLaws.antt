-- ===== src/Streams/XaddLaws.antt =====
-- XADD to a stream that is not empty: an id of two numbers, and the id `*`.
use codecrafters_redis_c.Base.{
  ℕ, ◌^◌, ◌<◌, ◌≤◌, ◌≢◌, ℤ, eqb_ℤ, Bytes, codes, List, [], ◌∷◌, ◌++◌, some, ◌≡◌, refl, ap, ◌∙◌,
  arith, true, false, All, All-append,
}
use codecrafters_redis_c.Outcome.{done}
use codecrafters_redis_c.Libc.{print_nat, bulk}
use codecrafters_redis_c.Libc.RoundTrip.{print_nat_bytes}
use codecrafters_redis_c.Libc.Scan.{contains}
use codecrafters_redis_c.Resp.Command.{Command}
use codecrafters_redis_c.Keyspace.{Table}
use codecrafters_redis_c.Server.{Server}
use codecrafters_redis_c.Server.Exec.{Exec}
use codecrafters_redis_c.Lists.Pushes.{SameElsewhere}
use codecrafters_redis_c.Streams.Ids.{validate_stream_id}
use codecrafters_redis_c.Streams.Reading.{as_stream}
use codecrafters_redis_c.Streams.Add.{open_stream, check_id, new_id, handle_set_stream}
use codecrafters_redis_c.Streams.Posts.{
  Post, id_text, InRange, follows, stream_of, StreamAt, WellFormed, Increasing, last_entry-posts,
  All-last,
}
use codecrafters_redis_c.Streams.Validation.{verdict, validate_stream_id_lem}
use codecrafters_redis_c.Streams.Adding.{NobodyReads, add_entry_run}

rising-append :
    (ps : List Post) (last new : Post)
    → Increasing (ps ++ last ∷ [])
    → follows last.ms last.seq new ≡ true
    → Increasing ((ps ++ last ∷ []) ++ new ∷ [])
rising-append [] last new h k = (k, tt)
rising-append (p ∷ []) last new (h, _) k = (h, (k, tt))
rising-append (p ∷ q ∷ ps) last new (h, hs) k = (h, rising-append (q ∷ ps) last new hs k)

-- The invariant is kept by a post whose id is after the last one.
pub grown_WellFormed :
    (ps : List Post) (last new : Post)
    → WellFormed ps last
    → InRange new
    → follows last.ms last.seq new ≡ true
    → WellFormed (ps ++ last ∷ []) new
grown_WellFormed ps last new well small later = record {
  in_range = All-append InRange (ps ++ last ∷ []) (new ∷ []) well.in_range (small, tt);
  rising = rising-append ps last new well.rising later;
}

contains_not : (c : ℕ) (s : Bytes) → All (λ d. c ≢ d) s → contains s (c ∷ []) ≡ false
unfolding contains
contains_not c [] h = refl
contains_not c (d ∷ s) (h, hs) = ground (arith, h, contains_not c s hs)

digits_no_star : (s : Bytes) → All (λ c. (b'0' ≤ c) × (c ≤ b'9')) s → All (λ c. b'*' ≢ c) s
digits_no_star [] h = tt
digits_no_star (c ∷ s) (h, hs) = (omega arith, digits_no_star s hs)

id_no_star : (ms seq : ℕ) → contains (id_text ms seq) (codes "*") ≡ false
id_no_star ms seq = contains_not b'*' (id_text ms seq) (
    All-append (λ c. b'*' ≢ c) (print_nat ms) (b'-' ∷ print_nat seq)
      (digits_no_star (print_nat ms) (print_nat_bytes ms))
      (omega arith, digits_no_star (print_nat seq) (print_nat_bytes seq)))

-- An XADD that adds the post `new` to the stream of `ps` and `last`: the client gets the id, the key
-- has the longer stream, whose ids still increase, and nothing else changes but the clock.
pub record Added (key : Bytes) (m : Exec (Unit {0})) (fd : ℤ) (ps : List Post) (last new : Post)
    (s s₁ : Server) : Type 0 where
  pub final : Table
  pub returns :
      m s
      ≡ done (
        tt,
        record s₁ { table = final; sent = s₁.sent ++ (fd, bulk (id_text new.ms new.seq)) ∷ [] },
      )
  pub at_key : StreamAt key (ps ++ last ∷ []) new final
  pub elsewhere : SameElsewhere key s₁.table final
  pub well : WellFormed (ps ++ last ∷ []) new

pub explicit_id :
    (ps : List Post) (last : Post) (ms seq : ℕ) (s : Server)
    → new_id (stream_of ps last) (id_text ms seq) s ≡ done (id_text ms seq, s)
unfolding new_id
explicit_id ps last ms seq s = rw (id_no_star ms seq) refl

-- XADD of an id of two `long long` numbers that is after the last id of a stream with increasing ids,
-- from a client that is not the master, while nobody waits for the stream, returns: the client gets
-- the id, the stream ends with the new entry, its ids still increase, and no other lookup changes.
pub handle_set_stream_explicit :
    (cmd : Command) (key : Bytes) (fd : ℤ) (ps : List Post) (last new : Post) (s : Server)
    → StreamAt key ps last s.table
    → WellFormed ps last
    → InRange new
    → follows last.ms last.seq new ≡ true
    → eqb_ℤ fd s.config.master_fd ≡ false
    → NobodyReads key s.heap s.clients
    → Added key
        (handle_set_stream
          (record { command = cmd; args = key ∷ id_text new.ms new.seq ∷ new.fields })
          fd)
        fd
        ps
        last
        new
        s
        s
unfolding handle_set_stream open_stream as_stream check_id
handle_set_stream_explicit cmd key fd ps last new s at well (hm, hs) later other quiet =
    let (lm, ls) = All-last ps last well.in_range in
    let (final, run, at', same) =
      add_entry_run cmd key (id_text new.ms new.seq) fd ps last new s s at
        (explicit_id ps last new.ms new.seq s) (hm, hs) other quiet in
    record {
      final = final;
      returns = ground (
        arith,
        at.found,
        at.value,
        last_entry-posts ps last,
        validate_stream_id_lem new.ms new.seq last.ms last.seq hm hs lm ls,
        later,
        run,
      );
      at_key = at';
      elsewhere = same;
      well = grown_WellFormed ps last new well (hm, hs) later;
    }

-- XADD of an id of two `long long` numbers that is 0-0, or that is not after the last id of the
-- stream, from a client that is not the master, returns: the client gets the message that fits, and
-- nothing else changes.
pub handle_set_stream_refused :
    (cmd : Command) (key message : Bytes) (fd : ℤ) (ms seq : ℕ) (fields : List Bytes)
    (ps : List Post) (last : Post) (s : Server)
    → StreamAt key ps last s.table
    → WellFormed ps last
    → ms < 2 ^ 63
    → seq < 2 ^ 63
    → verdict ms seq last.ms last.seq ≡ some message
    → eqb_ℤ fd s.config.master_fd ≡ false
    → handle_set_stream (record { command = cmd; args = key ∷ id_text ms seq ∷ fields }) fd s
      ≡ done (tt, record s { sent = s.sent ++ (fd, message) ∷ [] })
unfolding handle_set_stream open_stream as_stream check_id
handle_set_stream_refused cmd key message fd ms seq fields ps last s at well hm hs bad other =
    let (lm, ls) = All-last ps last well.in_range in
    let said : validate_stream_id (id_text ms seq) (id_text last.ms last.seq)
        ≡ done (some message) =
      validate_stream_id_lem ms seq last.ms last.seq hm hs lm ls ∙ ap done bad in
    ground (arith, at.found, at.value, last_entry-posts ps last, said, other)
