-- ===== src/Streams/Selecting.antt =====
-- What XREAD and XRANGE print of a stream.
use codecrafters_redis_c.Base.{
  ℕ, suc, ◌+◌, ◌^◌, ◌<◌, ℤ, pos, Bytes, List, [], ◌∷◌, ◌++◌, map, ◌≡◌, refl, ap, ◌∙◌, arith, Bool,
  true, false, length, length-append, append_assoc, append-nil, All, inl, inr, Bool-cases,
}
use codecrafters_redis_c.Outcome.{done}
use codecrafters_redis_c.Libc.{Buffer, print_all}
use codecrafters_redis_c.Libc.RoundTrip.{print_all-fits}
use codecrafters_redis_c.Libc.ScanLaws.{scan_pair-print}
use codecrafters_redis_c.Streams.Reading.{id_numbers, in_xread, print_entries, entry_parts}
use codecrafters_redis_c.Streams.Posts.{
  Post, id_text, InRange, follows, entry_of, Increasing, select, post_text, posts_text,
}

-- The numbers of a printed id.
pub id_numbers-id_text :
    (ms seq : ℕ) → ms < 2 ^ 63 → seq < 2 ^ 63 → id_numbers (id_text ms seq) ≡ done (pos ms, pos seq)
unfolding id_numbers
id_numbers-id_text ms seq a b = rw (scan_pair-print ms seq a b) refl

-- A buffer that holds a text.
abbrev pub holding : Bytes → Buffer
holding t = record { bytes = t; offset = length t }

-- Whether a post is printed.
abbrev pub wants : (ℤ × ℤ → Bool) → Post → Bool
wants w p = w (pos p.ms, pos p.seq)

entries_skip :
    (w : ℤ × ℤ → Bool) (size n : ℕ) (p : Post) (es : List Post) (b : Buffer) (count : ℕ)
    → InRange p
    → wants w p ≡ false
    → print_entries w size (suc n) (map entry_of (p ∷ es)) b count
      ≡ print_entries w size n (map entry_of es) b count
unfolding print_entries
entries_skip w size n p es b count (hm, hs) out =
    ground (arith, id_numbers-id_text p.ms p.seq hm hs, out)

entries_print :
    (w : ℤ × ℤ → Bool) (size n : ℕ) (p : Post) (es : List Post) (t : Bytes) (count : ℕ)
    → InRange p
    → wants w p ≡ true
    → length t + length (post_text p) < size
    → print_entries w size (suc n) (map entry_of (p ∷ es)) (holding t) count
      ≡ print_entries w size n (map entry_of es) (holding (t ++ post_text p)) (count + 1)
unfolding print_entries
entries_print w size n p es t count (hm, hs) chosen fits =
    let printed : print_all size (entry_parts (entry_of p)) (holding t)
        ≡ done (holding (t ++ post_text p)) =
      print_all-fits size (entry_parts (entry_of p)) t fits in
    ground (arith, id_numbers-id_text p.ms p.seq hm hs, chosen, printed)

-- The loop prints the selected entries, if their texts fit.
pub print_entries_lem :
    (w : ℤ × ℤ → Bool) (size : ℕ) (ps : List Post) (t : Bytes) (count : ℕ)
    → All InRange ps
    → length t + length (posts_text (select (wants w) ps)) < size
    → print_entries w size (length ps) (map entry_of ps) (holding t) count
      ≡ done (holding (t ++ posts_text (select (wants w) ps)), count + length (select (wants w) ps))
print_entries_lem w size [] t count small fits =
    unfold print_entries in rw (append-nil t) (ground arith)
print_entries_lem w size (p ∷ ps) t count (here, small) fits = elim (Bool-cases (wants w p)) [
  | inl chosen ↦
      let rest = posts_text (select (wants w) ps) in
      let room = length-append (post_text p) rest in
      let fits' : length t + length (post_text p ++ rest) < size = rw chosen at fits in
      let ih =
        print_entries_lem w size ps (t ++ post_text p) (count + 1) small
          (omega (arith, room, length-append t (post_text p), fits')) in
      rw
        (
          entries_print w size (length ps) p ps t count here chosen (omega (arith, room, fits')),
          chosen,
        )
        (ih
          ∙ rw (append_assoc t (post_text p) rest)
              (ap (λ k. done (holding (t ++ (post_text p ++ rest)), k)) (omega arith)))
  | inr out ↦
      rw (entries_skip w size (length ps) p ps (holding t) count here out, out)
        (print_entries_lem w size ps t count small (rw out at fits))
]

-- The last post is not before the others.
abbrev pub UpTo : Post → Post → Type 0
UpTo last p = follows p.ms p.seq last ≡ true

follows_trans :
    (a b c : Post)
    → follows a.ms a.seq b ≡ true
    → follows b.ms b.seq c ≡ true
    → follows a.ms a.seq c ≡ true
follows_trans a b c h k = ground (arith, h, k)

pub below_last : (ps : List Post) (last : Post) → Increasing (ps ++ last ∷ []) → All (UpTo last) ps
below_last [] last h = tt
below_last (p ∷ []) last (h, _) = (h, tt)
below_last (p ∷ q ∷ ps) last (h, rest) =
    let (ih, more) = below_last (q ∷ ps) last rest in (follows_trans p q last h ih, (ih, more))

-- On ids up to the last one, the test of XREAD is whether the id follows the start.
xread_test :
    (ms seq : ℕ) (last p : Post)
    → UpTo last p
    → in_xread (pos ms, pos seq) (pos last.ms, pos last.seq) (pos p.ms, pos p.seq)
      ≡ follows ms seq p
unfolding in_xread
xread_test ms seq last p h = ground (arith, h)

xread_test_last :
    (ms seq : ℕ) (last : Post)
    → in_xread (pos ms, pos seq) (pos last.ms, pos last.seq) (pos last.ms, pos last.seq)
      ≡ follows ms seq last
unfolding in_xread
xread_test_last ms seq last = ground arith

-- XREAD selects what follows the start.
pub select-in_xread :
    (ms seq : ℕ) (ps : List Post) (last : Post)
    → All (UpTo last) ps
    → select (wants (in_xread (pos ms, pos seq) (pos last.ms, pos last.seq))) (ps ++ last ∷ [])
      ≡ select (follows ms seq) (ps ++ last ∷ [])
select-in_xread ms seq [] last h = rw (xread_test_last ms seq last) refl
select-in_xread ms seq (p ∷ ps) last (h, hs) =
    rw (xread_test ms seq last p h, select-in_xread ms seq ps last hs) refl
