-- ===== src/Streams/XaddPartial.antt =====
-- XADD with an id `ms-*`.
use codecrafters_redis_c.Base.{
  ℕ, ◌^◌, ◌<◌, ◌≤◌, ℤ, pos, eqb_ℤ, Bytes, codes, str_eq, List, [], ◌∷◌, ◌++◌, none, some, ◌≡◌, refl,
  ap, ◌∙◌, arith, true, false, ◌==◌, All, append-nil, length, if◌then◌else◌,
}
use codecrafters_redis_c.Outcome.{done}
use codecrafters_redis_c.Libc.{print_nat, bulk, skip_space}
use codecrafters_redis_c.Libc.Atoi.{is_space}
use codecrafters_redis_c.Libc.RoundTrip.{BeginsWithDigit, print_nat_bytes, atoi-print_nat}
use codecrafters_redis_c.Libc.Scan.{contains, until_space, scan_word, scan_words}
use codecrafters_redis_c.Libc.ScanLaws.{scan_llong-print_nat, dash_ends}
use codecrafters_redis_c.Resp.Command.{Command}
use codecrafters_redis_c.Keyspace.{Table}
use codecrafters_redis_c.Server.{Server}
use codecrafters_redis_c.Streams.Ids.{generate_id, validate_star, validate_stream_id}
use codecrafters_redis_c.Streams.Reading.{as_stream}
use codecrafters_redis_c.Streams.Add.{open_stream, check_id, handle_set_stream}
use codecrafters_redis_c.Streams.Posts.{
  Post, id_text, follows, stream_of, StreamAt, Increasing, last_entry-posts,
}
use codecrafters_redis_c.Streams.Validation.{IsDigit, until_dash-word, short, no_star}
use codecrafters_redis_c.Streams.XreadLaws.{print_nat-begins}
use codecrafters_redis_c.Streams.Adding.{NobodyReads, add_entry_run}
use codecrafters_redis_c.Streams.XaddStar.{ticked, star_id}

-- "ms-*"
abbrev pub partial_id : ℕ → Bytes
partial_id ms = print_nat ms ++ codes "-*"

contains-append : (s r t : Bytes) → contains r t ≡ true → contains (s ++ r) t ≡ true
unfolding contains
contains-append [] r t h = h
contains-append (c ∷ s) r t h = ground (arith, contains-append s r t h)

dash_star_found : contains (codes "-*") (codes "-*") ≡ true
unfolding contains
dash_star_found = refl

star_in_dash_star : contains (codes "-*") (codes "*") ≡ true
unfolding contains
star_in_dash_star = refl

dash_in_dash_star : contains (codes "-*") (codes "-") ≡ true
unfolding contains
dash_in_dash_star = refl

star_word : (c : ℕ) (s : Bytes) → scan_word (c ∷ s, codes "-*") ≡ (some (c ∷ s), some (codes "*"))
unfolding scan_word until_space skip_space is_space
star_word c s = refl

partial_words :
    (s : Bytes)
    → BeginsWithDigit s
    → All IsDigit s
    → length s ≤ 63
    → scan_words (s ++ codes "-*") ≡ (some s, some (codes "*"))
unfolding scan_words
partial_words [] h d b = absurd h
partial_words (c ∷ s) h d b =
    ap scan_word (until_dash-word 63 (c ∷ s) (codes "*") d b) ∙ star_word c s

star_refl : str_eq (codes "*") (codes "*") ≡ true
unfolding str_eq
star_refl = refl

not_star : (s t : Bytes) → BeginsWithDigit s → str_eq (s ++ t) (codes "*") ≡ false
unfolding str_eq
not_star [] t h = absurd h
not_star (c ∷ s) t h = ground (arith, h)

atoi_scan :
    (ms : ℕ) (id tail : Bytes) → ms < 2 ^ 31 → validate_star (print_nat ms) id tail ≡ done none
unfolding validate_star
atoi_scan ms id tail h = ground (
  arith,
  atoi-print_nat ms h,
  append-nil (print_nat ms),
  scan_llong-print_nat ms [] (omega (arith, h)) tt,
)

partial_valid :
    (ms : ℕ) (tail : Bytes) → ms < 2 ^ 31 → validate_stream_id (partial_id ms) tail ≡ done none
unfolding validate_stream_id
partial_valid ms tail h = ground (
  arith,
  not_star (print_nat ms) (codes "-*") (print_nat-begins ms),
  contains-append (print_nat ms) (codes "-*") (codes "-") dash_in_dash_star,
  partial_words (print_nat ms) (print_nat-begins ms) (print_nat_bytes ms)
      (short ms (omega (arith, h))),
  no_star (print_nat ms) (print_nat-begins ms),
  star_refl,
  atoi_scan ms (partial_id ms) tail h,
)

-- The post that XADD with `ms-*` adds behind a last id with other milliseconds.
abbrev pub first_post : ℕ → List Bytes → Post
first_post ms fields = record { ms = ms; seq = if ms == 0 then 1 else 0; fields = fields }

generate_partial :
    (ps : List Post) (last : Post) (ms now : ℕ)
    → ms < last.ms
    → ms < 2 ^ 31
    → generate_id (stream_of ps last) (partial_id ms) now
      ≡ done (pos ms, pos (if ms == 0 then 1 else 0))
unfolding generate_id
generate_partial ps last ms now behind h = ground (
  arith,
  contains-append (print_nat ms) (codes "-*") (codes "-*") dash_star_found,
  scan_llong-print_nat ms (codes "-*") (omega (arith, h)) (dash_ends (codes "*")),
  behind,
)

not_rising :
    (ps : List Post) (last new : Post)
    → Increasing ((ps ++ last ∷ []) ++ new ∷ [])
    → follows last.ms last.seq new ≡ true
not_rising [] last new (h, _) = h
not_rising (p ∷ []) last new (_, (h, _)) = h
not_rising (p ∷ q ∷ ps) last new (_, hs) = not_rising (q ∷ ps) last new hs

-- XADD with an id `ms-*` whose milliseconds are an `int` and less than those of the last id, from a
-- client that is not the master, while nobody waits for the stream, returns: the entry is added
-- behind the last one, and the ids of the stream do not increase any more.
pub handle_set_stream_behind :
    (cmd : Command) (key : Bytes) (fd : ℤ) (ms : ℕ) (fields : List Bytes) (ps : List Post)
    (last : Post) (s : Server)
    → StreamAt key ps last s.table
    → ms < last.ms
    → ms < 2 ^ 31
    → eqb_ℤ fd s.config.master_fd ≡ false
    → NobodyReads key s.heap s.clients
    → (final : Table) × (handle_set_stream
          (record { command = cmd; args = key ∷ partial_id ms ∷ fields })
          fd
          s
        ≡ done (
          tt,
          record (ticked s) {
            table = final;
            sent = s.sent ++ (fd, bulk (id_text ms (if ms == 0 then 1 else 0))) ∷ [];
          },
        ))
      × StreamAt key (ps ++ last ∷ []) (first_post ms fields) final
      × (¬ Increasing ((ps ++ last ∷ []) ++ first_post ms fields ∷ []))
unfolding handle_set_stream open_stream as_stream check_id
handle_set_stream_behind cmd key fd ms fields ps last s at behind h other quiet =
    let new = first_post ms fields in
    let hs : new.seq < 2 ^ 63 = ground arith in
    let hm : ms < 2 ^ 63 = omega (arith, h) in
    let named =
      star_id ps last (partial_id ms) ms new.seq s
        (contains-append (print_nat ms) (codes "-*") (codes "*") star_in_dash_star)
        (generate_partial ps last ms (s.clock 0) behind h) hm hs in
    let (final, run, at', same) =
      add_entry_run cmd key (partial_id ms) fd ps last new s (ticked s) at named (hm, hs) other
        quiet in
    (
      final,
      ground (
        arith,
        at.found,
        at.value,
        last_entry-posts ps last,
        partial_valid ms (id_text last.ms last.seq) h,
        run,
      ),
      at',
      λ rising. ground (arith, not_rising ps last new rising, behind),
    )
