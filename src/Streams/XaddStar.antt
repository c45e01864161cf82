-- ===== src/Streams/XaddStar.antt =====
-- XADD with the id `*`.
use codecrafters_redis_c.Base.{
  ℕ, suc, ◌+◌, ◌^◌, ◌<◌, ℤ, pos, eqb_ℤ, ◌+ℤ◌, Bytes, codes, str_eq, List, [], ◌∷◌, none, ◌≡◌, refl,
  ap, arith, true, false, ltb, if◌then◌else◌,
}
use codecrafters_redis_c.Outcome.{done}
use codecrafters_redis_c.Libc.{print_nat, print_int}
use codecrafters_redis_c.Libc.RoundTrip.{take_all}
use codecrafters_redis_c.Libc.Scan.{contains}
use codecrafters_redis_c.Resp.Command.{Command}
use codecrafters_redis_c.Server.{Server}
use codecrafters_redis_c.Streams.Ids.{generate_id, next_seq, print_id, validate_stream_id}
use codecrafters_redis_c.Streams.Reading.{as_stream}
use codecrafters_redis_c.Streams.Add.{open_stream, check_id, new_id, handle_set_stream}
use codecrafters_redis_c.Streams.Posts.{
  Post, id_text, stream_of, StreamAt, WellFormed, last_entry-posts, All-last,
}
use codecrafters_redis_c.Streams.Adding.{NobodyReads, add_entry_run, length-id_text}
use codecrafters_redis_c.Streams.XaddLaws.{Added, grown_WellFormed}

-- The post that XADD with `*` adds at the time `now`.
abbrev pub next_post : ℕ → Post → List Bytes → Post
next_post now last fields = record {
  ms = if ltb last.ms now then now else last.ms;
  seq = if ltb last.ms now then 0 else last.seq + 1;
  fields = fields;
}

next_seq_run : (n : ℕ) → n + 1 < 2 ^ 63 → next_seq (pos n) ≡ done (pos (n + 1))
unfolding next_seq ◌+ℤ◌
next_seq_run n h = ground (arith, h)

generate_next :
    (ps : List Post) (last : Post) (now : ℕ)
    → last.seq + 1 < 2 ^ 63
    → generate_id (stream_of ps last) (codes "*") now
      ≡ done (
        pos (if ltb last.ms now then now else last.ms),
        pos (if ltb last.ms now then 0 else last.seq + 1),
      )
unfolding generate_id contains
generate_next [] last now h = ground (arith, next_seq_run last.seq h)
generate_next (p ∷ ps) last now h = ground (arith, next_seq_run last.seq h)

-- The state after one reading of the clock.
abbrev pub ticked : Server → Server
ticked s = record s { clock = λ n. s.clock (suc n) }

pub star_id :
    (ps : List Post) (last : Post) (given : Bytes) (ms seq : ℕ) (s : Server)
    → contains given (codes "*") ≡ true
    → generate_id (stream_of ps last) given (s.clock 0) ≡ done (pos ms, pos seq)
    → ms < 2 ^ 63
    → seq < 2 ^ 63
    → new_id (stream_of ps last) given s ≡ done (id_text ms seq, ticked s)
unfolding new_id print_id print_int print_nat
star_id ps last given ms seq s star made hm hs =
    let short = length-id_text ms seq hm hs in
    rw (star, made)
      (ap (λ t. done (t, ticked s)) (take_all 47 (id_text ms seq) (omega (arith, short))))

-- The id `*` is valid for every stream.
star_valid : (id : Bytes) → validate_stream_id (codes "*") id ≡ done none
unfolding validate_stream_id str_eq
star_valid id = refl

star_found : contains (codes "*") (codes "*") ≡ true
unfolding contains
star_found = refl

-- XADD with the id `*` to a stream with increasing ids, from a client that is not the master, while
-- nobody waits for the stream and the clock and the next sequence number are `long long` numbers,
-- returns: the new id is the time and 0 if the time is after the last id's, and else the last id with
-- the next sequence number; the client gets it, the stream ends with the new entry, its ids still
-- increase, and no other lookup changes.
pub handle_set_stream_star :
    (cmd : Command) (key : Bytes) (fd : ℤ) (fields : List Bytes) (ps : List Post) (last : Post)
    (s : Server)
    → StreamAt key ps last s.table
    → WellFormed ps last
    → s.clock 0 < 2 ^ 63
    → last.seq + 1 < 2 ^ 63
    → eqb_ℤ fd s.config.master_fd ≡ false
    → NobodyReads key s.heap s.clients
    → Added key
        (handle_set_stream (record { command = cmd; args = key ∷ codes "*" ∷ fields }) fd)
        fd
        ps
        last
        (next_post (s.clock 0) last fields)
        s
        (ticked s)
unfolding handle_set_stream open_stream as_stream check_id
handle_set_stream_star cmd key fd fields ps last s at well early small other quiet =
    let (lm, ls) = All-last ps last well.in_range in
    let new = next_post (s.clock 0) last fields in
    let hm : new.ms < 2 ^ 63 = ground (arith, early, lm) in
    let hs : new.seq < 2 ^ 63 = ground (arith, small) in
    let named =
      star_id ps last (codes "*") new.ms new.seq s star_found
        (generate_next ps last (s.clock 0) small) hm hs in
    let (final, run, at', same) =
      add_entry_run cmd key (codes "*") fd ps last new s (ticked s) at named (hm, hs) other quiet in
    record {
      final = final;
      returns = ground (
        arith,
        at.found,
        at.value,
        last_entry-posts ps last,
        star_valid (id_text last.ms last.seq),
        run,
      );
      at_key = at';
      elsewhere = same;
      well = grown_WellFormed ps last new well (hm, hs) (ground arith);
    }
