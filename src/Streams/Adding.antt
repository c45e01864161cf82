-- ===== src/Streams/Adding.antt =====
-- XADD to a stream that is not empty, while nobody waits for it.
use codecrafters_redis_c.Base.{
  ℕ, suc, ◌^◌, ◌<◌, ◌≤◌, ℤ, pos, eqb_ℤ, Bytes, crlf, str_eq_refl, List, [], ◌∷◌, ◌++◌, map, Option,
  none, some, ◌≡◌, refl, ap, ◌∙◌, arith, false, length, length-append, append-nil,
}
use codecrafters_redis_c.Outcome.{done}
use codecrafters_redis_c.Libc.{print_nat, bulk, empty_buffer, print_all, sent_bytes}
use codecrafters_redis_c.Libc.RoundTrip.{length-print_nat_below, print_all-fits, sent_bytes-fits}
use codecrafters_redis_c.Resp.Command.{Command}
use codecrafters_redis_c.Keyspace.{Stream, Entry, stream, Table}
use codecrafters_redis_c.Keyspace.Store.{store_put_value}
use codecrafters_redis_c.Keyspace.Laws.{store_get_entry-store_put_value}
use codecrafters_redis_c.Server.{Server, Client, Address, Heap}
use codecrafters_redis_c.Server.Exec.{bind_run}
use codecrafters_redis_c.Lists.Pushes.{SameElsewhere}
use codecrafters_redis_c.Streams.Add.{
  waits_for, wake_readers, new_id, append_entry, put_stream, add_entry,
}
use codecrafters_redis_c.Streams.Posts.{Post, id_text, InRange, entry_of, stream_of, StreamAt}
use codecrafters_redis_c.Streams.Selecting.{id_numbers-id_text, holding}

-- The clients of the cells are allocated, and none of them waits for the key.
abbrev pub NobodyReads : Bytes → Heap → List (Option Address) → Type 0
NobodyReads key heap [] = Unit
NobodyReads key heap (none ∷ cells) = NobodyReads key heap cells
NobodyReads key heap (some p ∷ cells) =
    ((c : Client) × (heap p ≡ some c) × (waits_for key c ≡ false)) × NobodyReads key heap cells

pub wake_nobody :
    (key : Bytes) (cells : List (Option Address)) (s : Server)
    → NobodyReads key s.heap cells
    → wake_readers key cells s ≡ done (tt, s)
unfolding wake_readers
wake_nobody key [] s h = refl
wake_nobody key (none ∷ cells) s h = wake_nobody key cells s h
wake_nobody key (some p ∷ cells) s ((c, at, quiet), h) =
    ground (arith, at, quiet, wake_nobody key cells s h)

-- The id of a post fits the buffer of the reply.
pub length-id_text : (ms seq : ℕ) → ms < 2 ^ 63 → seq < 2 ^ 63 → length (id_text ms seq) ≤ 39
length-id_text ms seq hm hs =
    let a = length-print_nat_below 18 ms (omega arith) in
    let b = length-print_nat_below 18 seq (omega arith) in
    let c = length-append (print_nat ms) (b'-' ∷ print_nat seq) in omega (arith, a, b, c)

length-bulk : (t : Bytes) → length t ≤ 39 → length (bulk t) < 60
unfolding bulk
length-bulk t h =
    let a = length-print_nat_below 1 (length t) (omega arith) in
    let b = length-append (print_nat (length t)) (crlf ++ (t ++ crlf)) in
    let c = length-append t crlf in omega (arith, a, b, c)

-- The reply to XADD fits its buffer.
reply_fits :
    (id : Bytes)
    → length id ≤ 39
    → (print_all 128 (bulk id ∷ []) empty_buffer ≡ done (holding (bulk id)))
      × (sent_bytes 128 (holding (bulk id)) ≡ done (bulk id))
reply_fits id h =
    let fits : length (bulk id) < 60 = length-bulk id h in
    (
      print_all-fits 128 (bulk id ∷ []) [] (rw (append-nil (bulk id)) (omega (arith, fits)))
          ∙ ap (λ t. done (holding t)) (append-nil (bulk id)),
      sent_bytes-fits 128 (bulk id) (omega (arith, fits)),
    )

entries_append :
    (ps : List Post) (new : Post)
    → map entry_of ps ++ entry_of new ∷ [] ≡ map entry_of (ps ++ new ∷ [])
entries_append [] new = refl
entries_append (p ∷ ps) new = ap (λ es. entry_of p ∷ es) (entries_append ps new)

stream_grows :
    (ps : List Post) (last new : Post)
    → append_entry (entry_of new) (pos new.ms) (pos new.seq) (stream_of ps last)
      ≡ stream_of (ps ++ last ∷ []) new
stream_grows ps last new =
    ap
      (λ es. record {
        entries = es;
        last_ms = pos new.ms;
        last_seq = pos new.seq;
        length = suc (length (ps ++ last ∷ []));
      })
      (entries_append (ps ++ last ∷ []) new)
    ∙ ap
        (λ n. record {
          entries = map entry_of ((ps ++ last ∷ []) ++ new ∷ []);
          last_ms = pos new.ms;
          last_seq = pos new.seq;
          length = n;
        })
        (omega (arith, length-append (ps ++ last ∷ []) (new ∷ [])))

put_in_place :
    (key : Bytes) (found : Option Entry) (ps : List Post) (last : Post) (new : Stream) (s : Server)
    (final : Table)
    → store_put_value key (stream new) s.table ≡ done final
    → put_stream key found (stream_of ps last) new s ≡ done (tt, record s { table = final })
unfolding put_stream
put_in_place key found [] last new s final written = ground (arith, written)
put_in_place key found (p ∷ ps) last new s final written = ground (arith, written)

-- The stream with one more post is written back.
pub put_stream_run :
    (key : Bytes) (ps : List Post) (last new : Post) (s : Server)
    (at : StreamAt key ps last s.table)
    → (final : Table) × (put_stream key
          (some at.entry)
          (stream_of ps last)
          (append_entry (entry_of new) (pos new.ms) (pos new.seq) (stream_of ps last))
          s
        ≡ done (tt, record s { table = final }))
      × StreamAt key (ps ++ last ∷ []) new final
      × SameElsewhere key s.table final
put_stream_run key ps last new s at =
    let grown : Stream = stream_of (ps ++ last ∷ []) new in
    let (final, written, law) =
      store_get_entry-store_put_value key (stream grown) at.entry s.table at.found in
    (
      final,
      rw (stream_grows ps last new)
          (put_in_place key (some at.entry) ps last grown s final written),
      record {
        entry = record at.entry { value = stream grown };
        found = law key ∙ rw (str_eq_refl key) refl;
        type = at.type;
        value = refl;
      },
      λ j other. law j ∙ rw other refl,
    )

-- The state of XADD when it comes to the clients that wait: the id was sent to `fd`.
abbrev pub replied : ℤ → Post → Server → Table → Server
replied fd new s final = record s {
  table = final;
  sent = s.sent ++ (fd, bulk (id_text new.ms new.seq)) ∷ [];
}

-- XADD behind the checks: `s₁` is the state once the id is known, and `after` the one once the
-- clients that wait were served.
pub add_entry_wakes :
    (cmd : Command) (key given : Bytes) (fd : ℤ) (ps : List Post) (last new : Post) (s s₁ : Server)
    (after : Table → Server) (at : StreamAt key ps last s₁.table)
    → new_id (stream_of ps last) given s ≡ done (id_text new.ms new.seq, s₁)
    → InRange new
    → eqb_ℤ fd s₁.config.master_fd ≡ false
    → ((final : Table)
        → StreamAt key (ps ++ last ∷ []) new final
        → wake_readers key s₁.clients (replied fd new s₁ final) ≡ done (tt, after final))
    → (final : Table) × (add_entry
          (record { command = cmd; args = key ∷ given ∷ new.fields })
          fd
          key
          (some at.entry)
          (stream_of ps last)
          s
        ≡ done (tt, after final))
      × StreamAt key (ps ++ last ∷ []) new final
      × SameElsewhere key s₁.table final
unfolding add_entry
add_entry_wakes cmd key given fd ps last new s s₁ after at named (hm, hs) other woken =
    let (final, written, at', same) = put_stream_run key ps last new s₁ at in
    let reply = reply_fits (id_text new.ms new.seq) (length-id_text new.ms new.seq hm hs) in
    (
      final,
      bind_run (new_id (stream_of ps last) given) _ s named
          ∙ ground (
            arith,
            id_numbers-id_text new.ms new.seq hm hs,
            written,
            other,
            reply.0,
            reply.1,
            woken final at',
          ),
      at',
      same,
    )

-- The same, while nobody waits.
pub add_entry_run :
    (cmd : Command) (key given : Bytes) (fd : ℤ) (ps : List Post) (last new : Post) (s s₁ : Server)
    (at : StreamAt key ps last s₁.table)
    → new_id (stream_of ps last) given s ≡ done (id_text new.ms new.seq, s₁)
    → InRange new
    → eqb_ℤ fd s₁.config.master_fd ≡ false
    → NobodyReads key s₁.heap s₁.clients
    → (final : Table) × (add_entry
          (record { command = cmd; args = key ∷ given ∷ new.fields })
          fd
          key
          (some at.entry)
          (stream_of ps last)
          s
        ≡ done (tt, replied fd new s₁ final))
      × StreamAt key (ps ++ last ∷ []) new final
      × SameElsewhere key s₁.table final
add_entry_run cmd key given fd ps last new s s₁ at named small other quiet =
    add_entry_wakes cmd key given fd ps last new s s₁ (replied fd new s₁) at named small other
      (λ final at'. wake_nobody key s₁.clients (replied fd new s₁ final) quiet)
