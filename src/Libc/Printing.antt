-- ===== src/Libc/Printing.antt =====
-- offset += snprintf(buf + offset, size - offset, …), repeated, and send(fd, buf, offset).
use codecrafters_redis_c.Base.{
  ℕ, ◌+◌, ◌-◌, Bytes, crlf, List, [], ◌∷◌, ◌++◌, length, take, ltb, leb, ◌==◌, if◌then◌else◌,
}
use codecrafters_redis_c.Outcome.{Outcome, done, undefined, ◌>>=◌}
use codecrafters_redis_c.Libc.Format.{print_nat}

-- `bytes` is the text before the terminating NUL; `offset` may run past it.
pub record Buffer : Type 0 where
  pub bytes : Bytes
  pub offset : ℕ

abbrev pub empty_buffer : Buffer
empty_buffer = record { bytes = []; offset = 0 }

-- One `snprintf` into a buffer of `size` bytes. A negative `size - offset` becomes a huge `size_t`,
-- and the write leaves the buffer.
unfoldable pub print : ℕ → Bytes → Buffer → Outcome Buffer
print size text b =
    if leb b.offset size
    then done (record {
      bytes = b.bytes ++ take (size - b.offset - 1) text;
      offset = b.offset + length text;
    })
    else undefined

-- What `send` of `offset` bytes reads: with `offset` at the buffer's size also the NUL.
unfoldable pub sent_bytes : ℕ → Buffer → Outcome Bytes
sent_bytes size b =
    if ltb b.offset size
    then done b.bytes
    else if b.offset == size
    then done (b.bytes ++ 0 ∷ [])
    else undefined

-- "$%zu\r\n%s\r\n", a bulk string.
unfoldable pub bulk : Bytes → Bytes
bulk s = b'$' ∷ (print_nat (length s) ++ (crlf ++ (s ++ crlf)))

unfoldable pub print_all : ℕ → List Bytes → Buffer → Outcome Buffer
unfolding print
print_all size [] b = done b
print_all size (t ∷ ts) b = do b' ← print size t b; print_all size ts b'

abbrev pub concat : List Bytes → Bytes
concat [] = []
concat (t ∷ ts) = t ++ concat ts
