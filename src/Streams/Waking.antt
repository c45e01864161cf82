-- ===== src/Streams/Waking.antt =====
-- XREAD BLOCK from `$`, and the XADD that wakes the client.
use codecrafters_redis_c.Base.{
  suc, ◌<◌, pos, Bytes, codes, List, [], ◌∷◌, ◌++◌, none, some, ◌≡◌, refl, ◌∙◌, arith, Bool, true,
  false, length, ◌==◌, All, if◌then◌else◌,
}
use codecrafters_redis_c.Outcome.{done}
use codecrafters_redis_c.Libc.{atoi}
use codecrafters_redis_c.Libc.Scan.{contains}
use codecrafters_redis_c.Resp.Command.{Command}
use codecrafters_redis_c.Keyspace.{Table}
use codecrafters_redis_c.Server.{Server, Client, Address}
use codecrafters_redis_c.Streams.Reading.{last_stream_entry, as_stream, xread_to_string}
use codecrafters_redis_c.Streams.Add.{wrap_xread_response, deliver, try_deliver_stream_data}
use codecrafters_redis_c.Streams.Words.{Leftover}
use codecrafters_redis_c.Streams.Spelling.{block_args, EndsWords, single, block_found}
use codecrafters_redis_c.Streams.Xread.{
  has_dollar_sign, handle_block_dollar, time_limit, handle_blocking_xread, handle_single_xread,
  handle_xread, handle_stream_print,
}
use codecrafters_redis_c.Streams.Posts.{
  Post, id_text, follows, entry_of, StreamAt, WellFormed, Increasing, select, posts_text,
  last_entry-posts, All-last,
}
use codecrafters_redis_c.Streams.Selecting.{UpTo, below_last}
use codecrafters_redis_c.Streams.XreadLaws.{xread_to_string_lem}

-- Nothing follows the last post.
select-below :
    (last : Post) (ps : List Post) → All (UpTo last) ps → select (follows last.ms last.seq) ps ≡ []
select-below last [] h = refl
select-below last (p ∷ ps) (h, hs) = ground (arith, h, select-below last ps hs)

select-append :
    (keep : Post → Bool) (ps qs : List Post)
    → select keep (ps ++ qs) ≡ select keep ps ++ select keep qs
select-append keep [] qs = refl
select-append keep (p ∷ ps) qs = ground (arith, select-append keep ps qs)

nothing_follows :
    (ps : List Post) (last : Post)
    → Increasing (ps ++ last ∷ [])
    → select (follows last.ms last.seq) (ps ++ last ∷ []) ≡ []
nothing_follows ps last rising =
    select-append (follows last.ms last.seq) ps (last ∷ [])
    ∙ ground (arith, select-below last ps (below_last ps last rising))

one_follows :
    (ps : List Post) (last new : Post)
    → Increasing (ps ++ last ∷ [])
    → follows last.ms last.seq new ≡ true
    → select (follows last.ms last.seq) ((ps ++ last ∷ []) ++ new ∷ []) ≡ new ∷ []
one_follows ps last new rising later =
    select-append (follows last.ms last.seq) (ps ++ last ∷ []) (new ∷ [])
    ∙ rw (nothing_follows ps last rising, later) refl

last_stream_entry_lem :
    (key : Bytes) (ps : List Post) (last : Post) (table : Table)
    → StreamAt key ps last table
    → last_stream_entry key table ≡ done (some (entry_of last))
unfolding last_stream_entry as_stream
last_stream_entry_lem key ps last table at =
    ground (arith, at.found, at.type, at.value, last_entry-posts ps last)

-- A client that waits for the stream, from an id on and for ever.
abbrev pub waiting : Bytes → Post → Client → Client
waiting key last c = record c {
  timeout_at = pos 0;
  min_id = some (id_text last.ms last.seq);
  is_blocked = true;
  waiting_for_key = some key;
}

dollar_found : (key : Bytes) → has_dollar_sign (block_args key) ≡ true
unfolding has_dollar_sign contains
dollar_found key = ground arith

zero_read : atoi (codes "0") ≡ done (pos 0)
unfolding atoi
zero_read = refl

-- The state once the client behind `p` is `c`.
abbrev pub with_client : Address → Client → Server → Server
with_client p c s = record s { heap = λ q. if p == q then some c else s.heap q }

abbrev pub ticked : Server → Server
ticked s = record s { clock = λ n. s.clock (suc n) }

dollar_run :
    (cmd : Command) (key : Bytes) (ps : List Post) (last : Post) (s : Server)
    → StreamAt key ps last s.table
    → WellFormed ps last
    → handle_block_dollar (record { command = cmd; args = block_args key }) s
      ≡ done ((id_text last.ms last.seq, some (record { text = []; count = 0 })), s)
unfolding handle_block_dollar
dollar_run cmd key ps last s at well =
    let (lm, ls) = All-last ps last well.in_range in
    let none_left = nothing_follows ps last well.rising in
    let read : xread_to_string (id_text last.ms last.seq) key s.table
        ≡ done (some (record { text = []; count = 0 })) =
      xread_to_string_lem key last.ms last.seq ps last s.table at lm ls well
        (rw none_left (omega arith))
      ∙ rw none_left refl in
    ground (arith, dollar_found key, last_stream_entry_lem key ps last s.table at, read)

limit_run : (s : Server) → time_limit (pos 0) s ≡ done (pos 0, s)
unfolding time_limit
limit_run s = refl

blocking_run :
    (cmd : Command) (key : Bytes) (p : Address) (c : Client) (ps : List Post) (last : Post)
    (s : Server)
    → s.heap p ≡ some c
    → StreamAt key ps last s.table
    → WellFormed ps last
    → handle_blocking_xread (record { command = cmd; args = block_args key }) p 0 s
      ≡ done (none, with_client p (waiting key last c) (ticked s))
unfolding handle_blocking_xread
blocking_run cmd key p c ps last s at_p at well =
    ground
      (arith, zero_read, limit_run (ticked s), dollar_run cmd key ps last (ticked s) at well, at_p)

-- XREAD BLOCK 0 STREAMS key $, for a stream with increasing ids, when the copies of the words end, returns: nothing is sent, the clock
-- is read once, and the client waits for what comes behind the last entry.
pub handle_stream_print_waits :
    (leftover : Leftover) (cmd : Command) (key : Bytes) (p : Address) (c : Client) (ps : List Post)
    (last : Post) (s : Server)
    → EndsWords leftover
    → s.heap p ≡ some c
    → StreamAt key ps last s.table
    → WellFormed ps last
    → handle_stream_print leftover
        (record { command = cmd; args = block_args key })
        p
        Command.xread
        s
      ≡ done (tt, with_client p (waiting key last c) (ticked s))
unfolding handle_stream_print handle_xread handle_single_xread
handle_stream_print_waits leftover cmd key p c ps last s ends at_p at well = ground (
  arith,
  single leftover cmd key ends,
  block_found leftover key ends,
  blocking_run cmd key p c ps last s at_p at well,
  at_p,
)

-- The client behind `p` after a delivery.
abbrev pub delivered : Client → Client
delivered c = record c { is_blocked = false; waiting_for_key = none; min_id = none }

-- What the client gets for one post.
abbrev pub one_message : Bytes → Post → Bytes
one_message key new = wrap_xread_response key (record { text = posts_text (new ∷ []); count = 1 })

-- A client that waits behind the last entry gets the new one, and waits no longer.
pub deliver_run :
    (key : Bytes) (p : Address) (c : Client) (ps : List Post) (last new : Post) (s : Server)
    → s.heap p ≡ some c
    → c.is_blocked ≡ true
    → c.waiting_for_key ≡ some key
    → c.min_id ≡ some (id_text last.ms last.seq)
    → StreamAt key (ps ++ last ∷ []) new s.table
    → WellFormed ps last
    → WellFormed (ps ++ last ∷ []) new
    → follows last.ms last.seq new ≡ true
    → length (posts_text (new ∷ [])) < 1024
    → try_deliver_stream_data p s
      ≡ done (
        tt,
        record (with_client p (delivered c) s) {
          sent = s.sent ++ (c.fd, one_message key new) ∷ [];
        },
      )
unfolding try_deliver_stream_data deliver
deliver_run key p c ps last new s at_p blocked for_key from at old well later fits =
    let (lm, ls) = All-last ps last old.in_range in
    let just_new = one_follows ps last new old.rising later in
    let read : xread_to_string (id_text last.ms last.seq) key s.table
        ≡ done (some (record { text = posts_text (new ∷ []); count = 1 })) =
      xread_to_string_lem key last.ms last.seq (ps ++ last ∷ []) new s.table at lm ls well
        (rw just_new fits)
      ∙ rw just_new refl in
    ground (arith, at_p, blocked, for_key, from, read)
