-- ===== src/Rdb/StreamValue.antt =====
-- `rdb_read_stream` of src/rdb_handler.c.
use codecrafters_redis_c.Base.{
  ℕ, zero, suc, pos, Bytes, [], Option, none, some, Bool, true, false, not, ◌&&◌, ◌||◌, length,
  take, drop, get_elem?, ltb, leb, ◌==◌, if◌then◌else◌,
}
use codecrafters_redis_c.Outcome.{Outcome, done, undefined, ◌>>=◌, ◌>>◌}
use codecrafters_redis_c.Keyspace.{Stream}
use codecrafters_redis_c.Rdb.Reader.{read_length}

-- The first bytes of an element that the function knows: 7-bit and 13-bit numbers, strings of up to
-- 63 bytes, and numbers of 16, 24, 32 and 64 bits.
abbrev pub is_element : ℕ → Bool
is_element enc = ltb enc 192 || (leb 241 enc && leb enc 244)

-- Whether the loop over a listpack takes an element: the bytes from index 6 up to the last one.
unfoldable pub has_element : Bytes → Bool
has_element blob = elim (get_elem? blob 6) [
  | none ↦ false
  | some enc ↦ ltb 7 (length blob) && (not (enc == 255) && is_element enc)
]

-- Behind an element the listpack is freed, and then it is read or freed again.
unfoldable pub read_listpack : Bytes → Outcome (Unit {0})
unfolding has_element
read_listpack blob = if has_element blob then undefined else done tt

-- The listpacks, `n` of them; whether they were all there.
unfoldable pub read_listpacks : ℕ → Bytes → Outcome (Bool × Bytes)
unfolding read_length read_listpack
read_listpacks zero s = done (true, s)
read_listpacks (suc n) s = do
  (len, rest) ← read_length s
  elim len [
    | none ↦ done (false, rest)
    | some (size, _) ↦
        if ltb (length rest) size
        then done (false, [])
        else (do read_listpack (take size rest); read_listpacks n (drop size rest))
  ]

-- `none` stands for NULL. A stream that is returned has no entries.
unfoldable pub read_stream : Bytes → Outcome (Option Stream × Bytes)
unfolding read_length read_listpacks
read_stream s = do
  (count, rest) ← read_length s
  elim count [
    | none ↦ done (none, rest)
    | some (n, _) ↦ do
      (all, rest₁) ← read_listpacks n rest
      if not all then done (none, rest₁) else (do
        (_, rest₂) ← read_length rest₁
        (_, rest₃) ← read_length rest₂
        (_, rest₄) ← read_length rest₃
        done (some (record { entries = []; last_ms = pos 0; last_seq = pos 0; length = 0 }), rest₄))
  ]
