-- ===== src/Streams/XreadLaws.antt =====
-- XREAD of a stream, from its posts.
use codecrafters_redis_c.Base.{
  ℕ, suc, ◌^◌, ◌<◌, pos, Bytes, codes, str_eq, str_eq_refl, List, [], ◌∷◌, ◌++◌, map, some, ◌≡◌,
  refl, ap, ◌∙◌, arith, false, length,
}
use codecrafters_redis_c.Outcome.{done, undefined}
use codecrafters_redis_c.Libc.{print_nat, empty_buffer}
use codecrafters_redis_c.Libc.RoundTrip.{BeginsWithDigit, digits-begin}
use codecrafters_redis_c.Keyspace.{Table}
use codecrafters_redis_c.Streams.Reading.{
  as_stream, in_xread, in_xrange, print_entries, xread_to_string, Messages, stream_entry_to_string,
  range_end,
}
use codecrafters_redis_c.Streams.Posts.{
  Post, id_text, InRange, follows, entry_of, StreamAt, select, posts_text, last_entry-posts,
  WellFormed, All-last,
}
use codecrafters_redis_c.Streams.Selecting.{
  id_numbers-id_text, print_entries_lem, wants, holding, select-in_xread, below_last,
}

pub print_nat-begins : (n : ℕ) → BeginsWithDigit (print_nat n)
unfolding print_nat
print_nat-begins n = digits-begin (suc n) n [] (omega arith)

digit_first :
    (s t : Bytes) (c : ℕ) → BeginsWithDigit s → c < b'0' → str_eq (s ++ t) (c ∷ []) ≡ false
unfolding str_eq
digit_first [] t c h k = absurd h
digit_first (d ∷ s) t c h k = ground (arith, h)

-- An id is neither `-` nor `*` nor `+`.
pub id_is_no_mark : (ms seq c : ℕ) → c < b'0' → str_eq (id_text ms seq) (c ∷ []) ≡ false
id_is_no_mark ms seq c h =
    digit_first (print_nat ms) (b'-' ∷ print_nat seq) c (print_nat-begins ms) h

-- What XREAD finds behind an id.
abbrev pub messages_after : ℕ → ℕ → List Post → Messages
messages_after ms seq ps = record {
  text = posts_text (select (follows ms seq) ps);
  count = length (select (follows ms seq) ps);
}

-- XREAD from an id of `long long` numbers, of a stream whose ids are of that type and increase,
-- returns the entries whose ids are after it, in their order, if their text is shorter than 1024
-- bytes.
pub xread_to_string_lem :
    (key : Bytes) (ms seq : ℕ) (ps : List Post) (last : Post) (table : Table)
    → StreamAt key ps last table
    → ms < 2 ^ 63
    → seq < 2 ^ 63
    → WellFormed ps last
    → length (posts_text (select (follows ms seq) (ps ++ last ∷ []))) < 1024
    → xread_to_string (id_text ms seq) key table
      ≡ done (some (messages_after ms seq (ps ++ last ∷ [])))
unfolding xread_to_string as_stream
xread_to_string_lem key ms seq ps last table at hm hs well fits =
    let (lm, ls) = All-last ps last well.in_range in
    let w = in_xread (pos ms, pos seq) (pos last.ms, pos last.seq) in
    let same = select-in_xread ms seq ps last (below_last ps last well.rising) in
    let printed : print_entries w 1024 (length (ps ++ last ∷ [])) (map entry_of (ps ++ last ∷ []))
          empty_buffer 0
        ≡ done (
          holding (posts_text (select (follows ms seq) (ps ++ last ∷ []))),
          length (select (follows ms seq) (ps ++ last ∷ [])),
        ) =
      print_entries_lem w 1024 (ps ++ last ∷ []) [] 0 well.in_range (rw same (omega (arith, fits)))
      ∙ rw same (
          ap (λ k. done (holding (posts_text (select (follows ms seq) (ps ++ last ∷ []))), k))
            (omega arith)) in
    ground (
      arith,
      at.found,
      at.type,
      at.value,
      id_is_no_mark ms seq b'-' (omega arith),
      id_numbers-id_text ms seq hm hs,
      id_numbers-id_text last.ms last.seq lm ls,
      last_entry-posts ps last,
      printed,
    )

-- XRANGE from `-` to `+` of a stream of two entries, where the sequence number of the first is
-- greater than that of the last, prints neither, and reads the memory that it did not write.
pub stream_entry_to_string_misses :
    (key : Bytes) (p last : Post) (table : Table)
    → StreamAt key (p ∷ []) last table
    → InRange p
    → InRange last
    → last.seq < p.seq
    → stream_entry_to_string (codes "-") (codes "+") key table ≡ undefined
unfolding stream_entry_to_string as_stream range_end in_xrange
stream_entry_to_string_misses key p last table at (pm, ps) (lm, ls) apart =
    let w = in_xrange (pos p.ms, pos p.seq) (pos last.ms, pos last.seq) in
    let nothing : select (wants w) (p ∷ last ∷ []) ≡ [] = ground (arith, apart) in
    let printed : print_entries w 576 2 (map entry_of (p ∷ last ∷ [])) empty_buffer 0
        ≡ done (holding [], 0) =
      print_entries_lem w 576 (p ∷ last ∷ []) [] 0 ((pm, ps), ((lm, ls), tt))
        (rw nothing (omega arith))
      ∙ rw nothing refl in
    ground (
      arith,
      at.found,
      at.type,
      at.value,
      str_eq_refl (codes "-"),
      str_eq_refl (codes "+"),
      id_numbers-id_text p.ms p.seq pm ps,
      id_numbers-id_text last.ms last.seq lm ls,
      last_entry-posts (p ∷ []) last,
      printed,
    )
