-- ===== src/Lists/Ranges.antt =====
-- LRANGE and LLEN against the lists that the arrays stand for.
use codecrafters_redis_c.Base.{
  ℕ, zero, suc, ◌+◌, ◌-◌, ◌≤◌, ◌<◌, ℤ, pos, negsuc, Bytes, codes, List, [], ◌∷◌, ◌++◌, map, ◌≡◌,
  refl, arith, true, length, length-append, take, drop, ltb, leb, ◌==◌, ◌||◌, if◌then◌else◌,
  append_assoc, append-nil, inl, inr, Bool-cases,
}
use codecrafters_redis_c.Outcome.{done}
use codecrafters_redis_c.Libc.{atoi, bulk, concat}
use codecrafters_redis_c.Resp.Command.{Command}
use codecrafters_redis_c.Keyspace.{ArrayList}
use codecrafters_redis_c.Server.{Server}
use codecrafters_redis_c.Server.Exec.{formatted}
use codecrafters_redis_c.Lists.ArrayLaws.{get_elem?-some}
use codecrafters_redis_c.Lists.Commands.{as_list, entry_value, number_reply}
use codecrafters_redis_c.Lists.Queries.{
  abs_int, reset_start, from_end, at_least_size, range_text, array_header, range_reply,
  handle_lrange, handle_llen,
}
use codecrafters_redis_c.Lists.Pushes.{Holds, ListAt}
use codecrafters_redis_c.Lists.PopHandlers.{read_first, drop_step}

-- The loop stays inside the list.
range_text_total :
    (n i : ℕ) (l : ArrayList) (xs : List Bytes) (text : Bytes)
    → Holds l xs
    → i + n ≤ length xs
    → (reply : Bytes) × (range_text n i l.values text ≡ done reply)
unfolding range_text
range_text_total zero i l xs text h p = (text, refl)
range_text_total (suc n) i l xs text h p =
    let (x, e) = get_elem?-some xs i (omega arith) in
    let read = read_first l xs i x h e (omega arith) in
    elim (Bool-cases (ltb (length (text ++ bulk x)) 2048)) [
      | inl more ↦
          let (reply, rest) = range_text_total n (i + 1) l xs (text ++ bulk x) h (omega arith) in
          (reply, ground (arith, read, more, rest))
      | inr full ↦ (take 2047 (text ++ bulk x), ground (arith, read, full))
    ]

-- A text that fits has every element.
range_text-fits :
    (n i : ℕ) (l : ArrayList) (xs : List Bytes) (text : Bytes)
    → Holds l xs
    → i + n ≤ length xs
    → length (text ++ concat (map bulk (take n (drop i xs)))) < 2048
    → range_text n i l.values text ≡ done (text ++ concat (map bulk (take n (drop i xs))))
unfolding range_text
range_text-fits zero i l xs text h p f = rw append-nil
range_text-fits (suc n) i l xs text h p f =
    let (x, e) = get_elem?-some xs i (omega arith) in
    let read = read_first l xs i x h e (omega arith) in
    let rest : Bytes = concat (map bulk (take n (drop (i + 1) xs))) in
    let f' = rw (drop_step i xs x e, ← append_assoc text (bulk x) rest) at f in
    let more : ltb (length (text ++ bulk x)) 2048 ≡ true =
      ground (arith, f', length-append (text ++ bulk x) rest) in
    ground (
      arith,
      read,
      more,
      drop_step i xs x e,
      append_assoc text (bulk x) rest,
      range_text-fits n (i + 1) l xs (text ++ bulk x) h (omega arith) f',
    )

range_reply_total :
    (l : ArrayList) (xs : List Bytes) (start end : ℤ)
    → Holds l xs
    → (reply : Bytes) × (range_reply l start end ≡ done reply)
unfolding range_reply at_least_size
range_reply_total l xs (negsuc a) end h = (codes "*0\r\n", refl)
range_reply_total l xs (pos a) (negsuc b) h = (codes "*0\r\n", ground arith)
range_reply_total l xs (pos a) (pos b) h = elim (Bool-cases (leb l.size a || ltb b a)) [
  | inl empty ↦ (codes "*0\r\n", ground (arith, empty))
  | inr some_left ↦ elim (Bool-cases (a == b)) [
    | inl same ↦
        let (x, e) = get_elem?-some xs a (ground (arith, h.size)) in
        (
          formatted 1024 (codes "*1\r\n" ++ bulk x),
          ground (arith, some_left, same, read_first l xs a x h e (ground (arith, h.size))),
        )
    | inr differ ↦
        let last : ℕ = if leb l.size b then l.size - 1 else b in
        let (reply, e) =
          range_text_total (last + 1 - a) a l xs (array_header (last + 1 - a)) h
            (ground (arith, h.size)) in
        (reply, ground (arith, some_left, differ, e))
  ]
]

-- LRANGE of a key that has a list returns, whatever the two indices are: no index reaches outside
-- the list. (`atoi` and `abs` are defined on the texts of the indices.)
pub handle_lrange_total :
    (c : Command) (key a b : Bytes) (start end : ℤ) (m n : ℕ) (xs : List Bytes) (fd : ℤ)
    (s : Server)
    → ListAt key xs s.table
    → atoi a ≡ done start
    → atoi b ≡ done end
    → abs_int start ≡ done m
    → abs_int end ≡ done n
    → (reply : Bytes) × (handle_lrange (record { command = c; args = key ∷ a ∷ b ∷ [] }) fd s
        ≡ done (tt, record s { sent = s.sent ++ (fd, reply) ∷ [] }))
unfolding handle_lrange as_list entry_value
handle_lrange_total c key a b start end m n xs fd s at ea eb ma mb =
    let l = at.array in
    let (reply, e) =
      range_reply_total l xs (from_end (reset_start start m n l.size) l.size) (from_end end l.size)
        at.holds in
    (reply, ground (arith, at.found, at.value, ea, eb, ma, mb, e))

-- LRANGE with indices 0 ≤ a < b, a inside the list and b at most its length, where the reply fits
-- 2048 bytes, returns the elements from a to b, or to the end if b is the length.
pub handle_lrange_inside :
    (c : Command) (key ta tb : Bytes) (a b : ℕ) (xs : List Bytes) (fd : ℤ) (s : Server)
    → ListAt key xs s.table
    → atoi ta ≡ done (pos a)
    → atoi tb ≡ done (pos b)
    → a < b
    → a < length xs
    → b ≤ length xs
    → let n : ℕ = (if leb (length xs) b then length xs - 1 else b) + 1 - a in
      length (array_header n ++ concat (map bulk (take n (drop a xs)))) < 2048
      → handle_lrange (record { command = c; args = key ∷ ta ∷ tb ∷ [] }) fd s
        ≡ done (
          tt,
          record s {
            sent = s.sent ++ (fd, array_header n ++ concat (map bulk (take n (drop a xs)))) ∷ [];
          },
        )
unfolding handle_lrange as_list entry_value abs_int reset_start from_end range_reply at_least_size
handle_lrange_inside c key ta tb a b xs fd s at ea eb p q r fits =
    let l = at.array in
    let n : ℕ = (if leb (length xs) b then length xs - 1 else b) + 1 - a in
    ground (
      arith,
      at.found,
      at.value,
      at.holds.size,
      ea,
      eb,
      range_text-fits n a l xs (array_header n) at.holds (ground arith) fits,
    )

-- LRANGE with a start index beyond the list's length answers as if the start index were 0.
pub handle_lrange_start_beyond :
    (c : Command) (key ta tz tb : Bytes) (a b : ℕ) (xs : List Bytes) (fd : ℤ) (s : Server)
    → ListAt key xs s.table
    → atoi ta ≡ done (pos a)
    → atoi tz ≡ done (pos 0)
    → atoi tb ≡ done (pos b)
    → length xs < a
    → handle_lrange (record { command = c; args = key ∷ ta ∷ tb ∷ [] }) fd s
      ≡ handle_lrange (record { command = c; args = key ∷ tz ∷ tb ∷ [] }) fd s
unfolding handle_lrange as_list entry_value abs_int reset_start from_end
handle_lrange_start_beyond c key ta tz tb a b xs fd s at ea ez eb p =
    ground (arith, at.found, at.value, at.holds.size, ea, ez, eb)

-- LLEN of a key that has a list answers with the list's length and changes nothing.
pub handle_llen_lem :
    (c : Command) (key : Bytes) (xs : List Bytes) (fd : ℤ) (s : Server)
    → ListAt key xs s.table
    → handle_llen (record { command = c; args = key ∷ [] }) fd s
      ≡ done
          (tt, record s { sent = s.sent ++ (fd, formatted 1024 (number_reply (length xs))) ∷ [] })
unfolding handle_llen as_list entry_value
handle_llen_lem c key xs fd s at = ground (arith, at.found, at.value, at.holds.size)
