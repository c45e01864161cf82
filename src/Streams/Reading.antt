-- ===== src/Streams/Reading.antt =====
-- The entries of a stream as text: `add_to_string`, `streamEntry_toString`,
-- `streamEntry_XREAD_toString`, `streamEntry_XREAD_Mul_toString`, `lastStreamEntry` of src/utils.c.
use codecrafters_redis_c.Base.{
  ℕ, zero, suc, ◌+◌, ◌*◌, ℤ, ltb_ℤ, leb_ℤ, eqb_ℤ, Bytes, codes, crlf, str_eq, List, [], ◌∷◌, ◌++◌,
  map, Option, none, some, Bool, true, false, not, ◌&&◌, ◌||◌, length, ◌==◌, if◌then◌else◌, ltb,
  ◌^◌,
}
use codecrafters_redis_c.Outcome.{Outcome, done, undefined, deref, require, ◌>>=◌, ◌>>◌}
use codecrafters_redis_c.Libc.{print_nat, bulk, Buffer, empty_buffer, print_all}
use codecrafters_redis_c.Libc.Scan.{scan_pair}
use codecrafters_redis_c.Keyspace.{
  RedisType, type_stream, Value, null, str, list, stream, zset, StreamEntry, Stream, Table,
}
use codecrafters_redis_c.Keyspace.Store.{store_get_entry}
use codecrafters_redis_c.Server.Exec.{formatted}

-- (Stream*)entry->value
unfoldable pub as_stream : Value → Outcome Stream
as_stream (stream s) = done s
as_stream null = undefined
as_stream (str s) = undefined
as_stream (list l) = undefined
as_stream (zset z) = undefined

abbrev pub is_stream : RedisType → Bool
is_stream type_stream = true
is_stream _ = false

-- stream->tail
unfoldable pub last_entry : List StreamEntry → Option StreamEntry
last_entry [] = none
last_entry (e ∷ []) = some e
last_entry (e ∷ d ∷ es) = last_entry (d ∷ es)

unfoldable pub last_stream_entry : Bytes → Table → Outcome (Option StreamEntry)
unfolding as_stream last_entry
last_stream_entry key table = do
  found ← store_get_entry key table
  elim found [
    | none ↦ done none
    | some e ↦
        if is_stream e.type
        then (do s ← as_stream e.value; done (last_entry s.entries))
        else done none
  ]

-- The numbers of an id, both of which have to be there.
unfoldable pub id_numbers : Bytes → Outcome (ℤ × ℤ)
id_numbers id = do
  pair ← scan_pair id
  ms ← deref pair.first
  seq ← deref pair.second
  done (ms, seq)

-- `add_to_string` with `isXrange` 0, negated: each number is compared by itself.
unfoldable pub in_xrange : ℤ × ℤ → ℤ × ℤ → ℤ × ℤ → Bool
in_xrange (start_ms, start_seq) (end_ms, end_seq) (ms, seq) =
    (leb_ℤ start_ms ms && leb_ℤ start_seq seq) && (leb_ℤ ms end_ms && leb_ℤ seq end_seq)

-- `add_to_string` with `isXrange` 1, negated.
unfoldable pub in_xread : ℤ × ℤ → ℤ × ℤ → ℤ × ℤ → Bool
in_xread (start_ms, start_seq) (end_ms, end_seq) (ms, seq) =
    (ltb_ℤ start_ms ms || (eqb_ℤ ms start_ms && ltb_ℤ start_seq seq))
    && (ltb_ℤ ms end_ms || (eqb_ℤ ms end_ms && leb_ℤ seq end_seq))

-- The texts that are printed for an entry.
unfoldable pub entry_parts : StreamEntry → List Bytes
entry_parts e =
    (codes "*2\r\n" ++ (bulk e.id ++ b'*' ∷ (print_nat (length e.fields) ++ crlf)))
    ∷ map bulk e.fields

-- The loop over the entries, of which there have to be `length`. The number counts those printed.
unfoldable pub print_entries :
    (ℤ × ℤ → Bool) → ℕ → ℕ → List StreamEntry → Buffer → ℕ → Outcome (Buffer × ℕ)
unfolding entry_parts id_numbers
print_entries wanted size zero es b count = done (b, count)
print_entries wanted size (suc n) [] b count = undefined
print_entries wanted size (suc n) (e ∷ es) b count = do
  numbers ← id_numbers e.id
  elim (wanted numbers) [
    | true ↦ do b' ← print_all size (entry_parts e) b; print_entries wanted size n es b' (count + 1)
    | false ↦ print_entries wanted size n es b count
  ]

-- The id at an end of a range: `mark` stands for the id of an entry that has to be there.
unfoldable pub range_end : Bytes → Bytes → Option StreamEntry → Outcome (ℤ × ℤ)
unfolding id_numbers
range_end id mark e =
    if str_eq id mark then (do entry ← deref e; id_numbers entry.id) else id_numbers id

abbrev pub first_entry : List StreamEntry → Option StreamEntry
first_entry [] = none
first_entry (e ∷ es) = some e

-- The text of the entries from `start` to `end`, or NULL. The text behind the header is not written
-- if no entry is printed, and the memory of `malloc` is read as a string.
unfoldable pub stream_entry_to_string : Bytes → Bytes → Bytes → Table → Outcome (Option Bytes)
unfolding as_stream range_end in_xrange print_entries last_entry
stream_entry_to_string start end key table = do
  found ← store_get_entry key table
  elim found [
    | none ↦ done none
    | some e ↦ if not (is_stream e.type) then done none else (do
      s ← as_stream e.value
      first ← range_end start (codes "-") (first_entry s.entries)
      last ← range_end end (codes "+") (last_entry s.entries)
      require (ltb (64 + s.length * 256) (2 ^ 31))
      let size = 64 + s.length * 256
      (b, count) ← print_entries (in_xrange first last) size s.length s.entries empty_buffer 0
      require (not (count == 0))
      done (some (formatted (size + 32) (b'*' ∷ (print_nat count ++ (crlf ++ b.bytes))))))
  ]

-- What XREAD finds: the text, which nothing was written to for a count of 0, and the count.
pub record Messages : Type 0 where
  pub text : Bytes
  pub count : ℕ

-- `streamEntry_XREAD_toString` with "+" for the end, as all its callers have it: the entries after
-- `start`, or NULL. A start of "-" leaves the numbers that are compared unset.
unfoldable pub xread_to_string : Bytes → Bytes → Table → Outcome (Option Messages)
unfolding as_stream id_numbers in_xread print_entries last_entry
xread_to_string start key table = do
  found ← store_get_entry key table
  elim found [
    | none ↦ done none
    | some e ↦ if not (is_stream e.type) then done none else (do
      s ← as_stream e.value
      require (not (str_eq start (codes "-")))
      first ← id_numbers start
      tail ← deref (last_entry s.entries)
      last ← id_numbers tail.id
      (b, count) ← print_entries (in_xread first last) 1024 s.length s.entries empty_buffer 0
      done (some (record { text = b.bytes; count = count })))
  ]

-- The blobs of all the streams, or NULL if one of them is.
unfoldable pub read_blobs : List Bytes → List Bytes → Table → Outcome (Option (List Messages))
unfolding xread_to_string
read_blobs [] ids table = done (some [])
read_blobs (key ∷ keys) [] table = undefined
read_blobs (key ∷ keys) (id ∷ ids) table = do
  blob ← xread_to_string id key table
  elim blob [
    | none ↦ done none
    | some m ↦ do
      rest ← read_blobs keys ids table
      done (elim rest [ none ↦ none | some ms ↦ some (m ∷ ms) ])
  ]

unfoldable pub blob_texts : List Bytes → List Messages → Outcome (List Bytes)
blob_texts [] ms = done []
blob_texts (key ∷ keys) [] = undefined
blob_texts (key ∷ keys) (m ∷ ms) = do
  require (not (m.count == 0))
  texts ← blob_texts keys ms
  done ((codes "*2\r\n" ++ (bulk key ++ b'*' ∷ (print_nat m.count ++ (crlf ++ m.text)))) ∷ texts)

-- The size of the result is the sum of what the parts may need.
abbrev pub total_size : List Bytes → List Messages → ℕ
total_size (key ∷ keys) (m ∷ ms) = 32 + length key + length m.text + total_size keys ms
total_size _ _ = 32

unfoldable pub xread_mul_to_string : List Bytes → List Bytes → Table → Outcome (Option Bytes)
unfolding read_blobs blob_texts
xread_mul_to_string keys ids table = do
  blobs ← read_blobs keys ids table
  elim blobs [
    | none ↦ done none
    | some ms ↦ do
      texts ← blob_texts keys ms
      b ←
          print_all (total_size keys ms) ((b'*' ∷ (print_nat (length keys) ++ crlf)) ∷ texts)
            empty_buffer
      done (some b.bytes)
  ]
