-- ===== src/Resp/Parse.antt =====
-- `parse`, `getLine` and `getPrefix` of src/parser.c.
use codecrafters_redis_c.Base.{
  ℕ, zero, suc, ◌+◌, pos, pos_part, eqb_ℤ, Bytes, codes, str_eq, List, [], ◌∷◌, ◌++◌, Bool, true,
  false, ◌&&◌, ◌||◌, Option, none, some, length, ltb, ◌==◌, if◌then◌else◌,
}
use codecrafters_redis_c.Outcome.{Outcome, done, undefined, ◌>>=◌, ◌>>◌, require}
use codecrafters_redis_c.Libc.{atoi, upper}
use codecrafters_redis_c.Resp.Command.{Command, find_redis_cmd, find_config_cmd}
use codecrafters_redis_c.Resp.Request.{Request}

-- `*client_input`: the bytes from the pointer to the NUL behind the received data, or `none` once
-- the pointer has passed that NUL, and the bytes consumed so far.
pub record Cursor : Type 0 where
  pub rest : Option Bytes
  pub offset : ℕ

unfoldable pub skip : ℕ → Option Bytes → Option Bytes
skip zero s = s
skip (suc n) none = none
skip (suc n) (some []) = none
skip (suc n) (some (c ∷ s)) = skip n (some s)

-- *client_input = *client_input + n
unfoldable pub advance : ℕ → Cursor → Cursor
unfolding skip
advance n c = record { rest = skip n c.rest; offset = c.offset + n }

-- The bytes before a carriage return or a NUL.
unfoldable pub line : Bytes → Bytes
line [] = []
line (c ∷ s) = if c == 13 || c == 0 then [] else c ∷ line s

-- The line is copied into 256 bytes with no test.
unfoldable pub get_line : Option Bytes → Outcome Bytes
unfolding line
get_line none = undefined
get_line (some s) = if ltb (length (line s)) 256 then done (line s) else undefined

unfoldable pub get_prefix : Bytes → Option ℕ
get_prefix [] = none
get_prefix (c ∷ s) =
    if c == b'*' || c == b'$' || c == b'+' || c == b'-' || c == b':' then some c else none

-- The text behind a line's prefix.
unfoldable pub behind : Bytes → Bytes
behind [] = []
behind (c ∷ s) = s

-- The request built so far, and `isConfig`.
pub record Partial : Type 0 where
  pub command : Command
  pub args : List Bytes
  pub is_config : Bool

-- What an element of the array does, at index `i`: the command, the word behind CONFIG, or an
-- argument, which goes to the next of the 16 places of `args`.
unfoldable pub store_element : ℕ → Bytes → Partial → Outcome Partial
store_element i value p =
    if i == 0
    then (if str_eq (upper value) (codes "CONFIG")
        then done (record p { is_config = true })
        else done (record p { command = find_redis_cmd (upper value) }))
    else if (i == 1) && p.is_config
    then done (record p { command = find_config_cmd (upper value) })
    else (do require (ltb (length p.args) 16); done (record p { args = p.args ++ value ∷ [] }))

-- One round of the loop behind its `getPrefix`: `none` is the return of 1.
unfoldable pub parse_value :
    ℕ → Partial → Bytes → Cursor → Option ℕ → Outcome (Option (Partial × Cursor))
parse_value i p len_line c none = done none
parse_value i p len_line c (some prefix) = do
  value_line ← get_line c.rest
  expected ← atoi (behind len_line)
  if eqb_ℤ (pos (length value_line)) expected
      then (do
        p' ← store_element i value_line p
        done (some (p', advance (length value_line + 2) c)))
      else done none

unfoldable pub parse_element : ℕ → Partial → Cursor → Outcome (Option (Partial × Cursor))
unfolding parse_value
parse_element i p cursor = do
  len_line ← get_line cursor.rest
  parse_value i p len_line (advance (length len_line + 2) cursor) (get_prefix len_line)

-- `loop_len` rounds; the return of 1 ends the loop.
unfoldable pub parse_elements : ℕ → ℕ → Partial → Cursor → Outcome (Option (Partial × Cursor))
parse_elements zero i p cursor = done (some (p, cursor))
parse_elements (suc n) i p cursor =
    parse_element i p cursor
    >>= elim [ none ↦ done none | some (p', c') ↦ parse_elements n (suc i) p' c' ]

abbrev pub finish : Option (Partial × Cursor) → Option (Request × Cursor)
finish none = none
finish (some (p, c)) = some (record { command = p.command; args = p.args }, c)

-- The array behind the `getPrefix` of its first line.
unfoldable pub parse_array : Bytes → Cursor → Option ℕ → Outcome (Option (Request × Cursor))
parse_array first_line cursor none = done none
parse_array first_line cursor (some prefix) =
    if prefix == b'*'
    then (do
      loop_len ← atoi (behind first_line)
      parsed ←
          parse_elements (pos_part loop_len) 0
            (record { command = Command.unknown; args = []; is_config = false })
            (advance (length first_line + 2) cursor)
      done (finish parsed))
    else done none

-- The request and the cursor behind it, or `none` for the return of 1.
unfoldable pub parse : Cursor → Outcome (Option (Request × Cursor))
unfolding parse_array
parse cursor = do
  first_line ← get_line cursor.rest
  parse_array first_line cursor (get_prefix first_line)
