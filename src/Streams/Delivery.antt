-- ===== src/Streams/Delivery.antt =====
-- XREAD BLOCK from `$` and a later XADD, one after the other.
use codecrafters_redis_c.Base.{
  ◌<◌, ℤ, eqb_ℤ, Bytes, str_eq_refl, List, [], ◌∷◌, ◌++◌, Option, none, some, ◌≡◌, refl, ap, ◌∙◌,
  arith, true, false, length, ◌==◌, ==_refl, if◌then◌else◌, inl, inr, Bool-cases,
}
use codecrafters_redis_c.Outcome.{done}
use codecrafters_redis_c.Libc.{bulk}
use codecrafters_redis_c.Resp.Command.{Command}
use codecrafters_redis_c.Keyspace.{Table}
use codecrafters_redis_c.Server.{Server, Client, Address, Heap}
use codecrafters_redis_c.Server.Exec.{◌>>◌, run_then}
use codecrafters_redis_c.Streams.Reading.{as_stream}
use codecrafters_redis_c.Streams.Add.{
  try_deliver_stream_data, waits_for, wake_readers, open_stream, check_id, handle_set_stream,
}
use codecrafters_redis_c.Streams.Words.{Leftover}
use codecrafters_redis_c.Streams.Spelling.{block_args, EndsWords}
use codecrafters_redis_c.Streams.Xread.{handle_stream_print}
use codecrafters_redis_c.Streams.Posts.{
  Post, id_text, InRange, follows, StreamAt, WellFormed, posts_text, last_entry-posts, All-last,
}
use codecrafters_redis_c.Streams.Validation.{validate_stream_id_lem}
use codecrafters_redis_c.Streams.Adding.{NobodyReads, wake_nobody, replied, add_entry_wakes}
use codecrafters_redis_c.Streams.XaddLaws.{explicit_id, grown_WellFormed}
use codecrafters_redis_c.Streams.Waking.{
  waiting, with_client, ticked, handle_stream_print_waits, delivered, one_message, deliver_run,
}

-- A client that does not wait for the key may change in the heap.
nobody_kept :
    (key : Bytes) (p : Address) (c : Client) (heap : Heap) (cells : List (Option Address))
    → waits_for key c ≡ false
    → NobodyReads key heap cells
    → NobodyReads key (λ q. if p == q then some c else heap q) cells
nobody_kept key p c heap [] quiet h = tt
nobody_kept key p c heap (none ∷ cells) quiet h = nobody_kept key p c heap cells quiet h
nobody_kept key p c heap (some q ∷ cells) quiet ((d, at, other), h) = (
  elim (Bool-cases (p == q)) [
    | inl same ↦ (c, rw same refl, quiet)
    | inr apart ↦ (d, rw apart at, other)
  ],
  nobody_kept key p c heap cells quiet h,
)

-- No cell points to the client.
abbrev pub Absent : Address → List (Option Address) → Type 0
Absent p [] = Unit
Absent p (none ∷ cells) = Absent p cells
Absent p (some q ∷ cells) = ((p == q) ≡ false) × Absent p cells

nobody_beside :
    (key : Bytes) (p : Address) (c : Client) (heap : Heap) (cells : List (Option Address))
    → Absent p cells
    → NobodyReads key heap cells
    → NobodyReads key (λ q. if p == q then some c else heap q) cells
nobody_beside key p c heap [] away h = tt
nobody_beside key p c heap (none ∷ cells) away h = nobody_beside key p c heap cells away h
nobody_beside key p c heap (some q ∷ cells) (apart, away) ((d, at, other), h) =
    ((d, rw apart at, other), nobody_beside key p c heap cells away h)

-- The loop of XADD serves the one client that waits.
wake_one :
    (key : Bytes) (before after : List (Option Address)) (p : Address) (c : Client) (s s' : Server)
    → s.heap p ≡ some c
    → waits_for key c ≡ true
    → try_deliver_stream_data p s ≡ done (tt, s')
    → NobodyReads key s.heap before
    → NobodyReads key s'.heap after
    → wake_readers key (before ++ some p ∷ after) s ≡ done (tt, s')
unfolding wake_readers
wake_one key [] after p c s s' at waits run hb ha =
    ground (arith, at, waits, run, wake_nobody key after s' ha)
wake_one key (none ∷ before) after p c s s' at waits run hb ha =
    wake_one key before after p c s s' at waits run hb ha
wake_one key (some q ∷ before) after p c s s' at waits run ((d, qat, quiet), hb) ha =
    ground (arith, qat, quiet, wake_one key before after p c s s' at waits run hb ha)

-- What XADD leaves once a waiting client has the entry.
abbrev pub handed : Bytes → Address → Client → Post → ℤ → Server → Table → Server
handed key p c new fd s final = record (with_client p (delivered c) (replied fd new s final)) {
  sent = (s.sent ++ (fd, bulk (id_text new.ms new.seq)) ∷ []) ++ (c.fd, one_message key new) ∷ [];
}

-- XADD of an id after the last one, while one client waits behind that one.
xadd_wakes :
    (cmd : Command) (key : Bytes) (fd : ℤ) (before after : List (Option Address)) (p : Address)
    (c : Client) (ps : List Post) (last new : Post) (s : Server)
    → s.heap p ≡ some (waiting key last c)
    → s.clients ≡ before ++ some p ∷ after
    → NobodyReads key s.heap before
    → NobodyReads key s.heap after
    → StreamAt key ps last s.table
    → WellFormed ps last
    → InRange new
    → follows last.ms last.seq new ≡ true
    → eqb_ℤ fd s.config.master_fd ≡ false
    → length (posts_text (new ∷ [])) < 1024
    → (final : Table) × (handle_set_stream
          (record { command = cmd; args = key ∷ id_text new.ms new.seq ∷ new.fields })
          fd
          s
        ≡ done (tt, handed key p (waiting key last c) new fd s final))
      × StreamAt key (ps ++ last ∷ []) new final
unfolding handle_set_stream open_stream as_stream check_id
xadd_wakes cmd key fd before after p c ps last new s at_p cells hb ha at well (hm, hs) later other
      fits =
    let (lm, ls) = All-last ps last well.in_range in
    let waiter = waiting key last c in
    let waits : waits_for key waiter ≡ true = rw (str_eq_refl key) refl in
    let rising = grown_WellFormed ps last new well (hm, hs) later in
    let (final, run, at', _) =
      add_entry_wakes cmd key (id_text new.ms new.seq) fd ps last new s s
        (handed key p waiter new fd s) at (explicit_id ps last new.ms new.seq s) (hm, hs) other
        (λ final at'.
          ap (λ cs. wake_readers key cs (replied fd new s final)) cells
          ∙ wake_one key before after p waiter (replied fd new s final)
              (handed key p waiter new fd s final) at_p waits
              (deliver_run key p waiter ps last new (replied fd new s final) at_p refl refl refl at'
                well rising later fits)
              hb (nobody_kept key p (delivered waiter) s.heap after refl ha)) in
    (
      final,
      ground (
        arith,
        at.found,
        at.value,
        last_entry-posts ps last,
        validate_stream_id_lem new.ms new.seq last.ms last.seq hm hs lm ls,
        later,
        run,
      ),
      at',
    )

-- A client asks with XREAD BLOCK 0 STREAMS key $ for what comes to a stream with increasing ids,
-- and then another client, which is not the master, adds an entry with an id after the last one,
-- whose text is shorter than 1024 bytes. Nobody else waits for the stream, and the first client
-- stands once among the clients. The copies that `to_upper` makes have no NUL of their own; the
-- bytes that `malloc` left behind the copy of STREAMS in `is_multiple_key` and behind the copy of
-- BLOCK in `hasBlock` are 0, which the code relies on. Then both return: the second client gets the
-- id, the first gets that entry alone and waits no longer, and the stream ends with the entry.
pub handle_set_stream-handle_stream_print :
    (leftover : Leftover) (cmd : Command) (key : Bytes) (fd : ℤ)
    (before after : List (Option Address)) (p : Address) (c : Client) (ps : List Post)
    (last new : Post) (s : Server)
    → EndsWords leftover
    → s.heap p ≡ some c
    → s.clients ≡ before ++ some p ∷ after
    → Absent p before
    → Absent p after
    → NobodyReads key s.heap before
    → NobodyReads key s.heap after
    → StreamAt key ps last s.table
    → WellFormed ps last
    → InRange new
    → follows last.ms last.seq new ≡ true
    → eqb_ℤ fd s.config.master_fd ≡ false
    → length (posts_text (new ∷ [])) < 1024
    → (final : Table) × ((handle_stream_print leftover
              (record { command = Command.xread; args = block_args key })
              p
              Command.xread
            >> handle_set_stream
                (record { command = cmd; args = key ∷ id_text new.ms new.seq ∷ new.fields })
                fd)
          s
        ≡ done (
          tt,
          handed key p
              (waiting key last c)
              new
              fd
              (with_client p (waiting key last c) (ticked s))
              final,
        ))
      × StreamAt key (ps ++ last ∷ []) new final
handle_set_stream-handle_stream_print leftover cmd key fd before after p c ps last new s ends at_p
      cells ab aa hb ha at well small later other fits =
    let waiter = waiting key last c in
    let s₁ : Server = with_client p waiter (ticked s) in
    let (final, run, at') =
      xadd_wakes cmd key fd before after p c ps last new s₁ (rw (==_refl p) refl) cells
        (nobody_beside key p waiter s.heap before ab hb)
        (nobody_beside key p waiter s.heap after aa ha) at well small later other fits in
    (
      final,
      run_then
            (handle_stream_print leftover
              (record { command = Command.xread; args = block_args key }) p Command.xread)
            (handle_set_stream
              (record { command = cmd; args = key ∷ id_text new.ms new.seq ∷ new.fields }) fd)
            s (handle_stream_print_waits leftover Command.xread key p c ps last s ends at_p at well)
          ∙ run,
      at',
    )
