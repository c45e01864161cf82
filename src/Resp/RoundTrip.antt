-- ===== src/Resp/RoundTrip.antt =====
-- `parse` undoes `copy_request_toBuffer`.
use codecrafters_redis_c.Base.{
  ℕ, suc, ◌+◌, ◌≤◌, ◌<◌, Bytes, codes, crlf, str_eq, List, [], ◌∷◌, ◌++◌, ◌≡◌, ◌≢◌, refl, arith,
  false, some, length, length-append, append_assoc, append-nil, map, All,
}
use native.Mathlib.Nat.{add_assoc, add-zero, zero-add}
use native.Mathlib.Numerals.{add-one}
use codecrafters_redis_c.Outcome.{done, ◌>>=◌}
use codecrafters_redis_c.Libc.{print_nat, bulk, concat, upper, sent_bytes}
use codecrafters_redis_c.Libc.RoundTrip.{
  atoi-print_nat, length-print_nat, print_all-fits, sent_bytes-fits,
}
use codecrafters_redis_c.Resp.Command.{Command, cmd_to_string}
use codecrafters_redis_c.Resp.CommandNames.{find_redis_cmd-cmd_to_string}
use codecrafters_redis_c.Resp.Request.{Request}
use codecrafters_redis_c.Resp.Parse.{
  get_prefix, behind, Partial, store_element, parse_elements, parse,
}
use codecrafters_redis_c.Resp.Encode.{encoded_parts, copy_request_to_buffer}
use codecrafters_redis_c.Resp.Lines.{
  IsLine, header-IsLine, get_line-append, advance-append, parse_element-bulk,
}

abbrev pub IsArg : Bytes → Type 0
IsArg s = IsLine s × (length s < 256)

-- No name of a command is CONFIG.
name_not_config : (c : Command) → str_eq (upper (cmd_to_string c)) (codes "CONFIG") ≡ false
unfolding cmd_to_string upper str_eq
name_not_config Command.unknown = refl
name_not_config _ = refl

name_is_upper : (c : Command) → upper (cmd_to_string c) ≡ cmd_to_string c
unfolding cmd_to_string upper
name_is_upper Command.unknown = refl
name_is_upper _ = refl

store_name :
    (c d : Command)
    → cmd_to_string c ≢ codes "UNKNOWN"
    → store_element 0 (cmd_to_string c) (record { command = d; args = []; is_config = false })
      ≡ done (record { command = c; args = []; is_config = false })
unfolding store_element
store_name c d named = rw (name_not_config c, name_is_upper c, find_redis_cmd-cmd_to_string c named)

store_arg :
    (i : ℕ) (s : Bytes) (c : Command) (args : List Bytes)
    → length args < 16
    → store_element (suc i) s (record { command = c; args = args; is_config = false })
      ≡ done (record { command = c; args = args ++ s ∷ []; is_config = false })
unfolding store_element
store_arg i s c args room = ground arith

-- The arguments behind the command, from place `i` on.
parse_args :
    (args done_args : List Bytes) (i : ℕ) (c : Command) (rest : Bytes) (off : ℕ)
    → All IsArg args
    → length done_args + length args ≤ 16
    → parse_elements
        (length args)
        (suc i)
        (record { command = c; args = done_args; is_config = false })
        (record { rest = some (concat (map bulk args) ++ rest); offset = off })
      ≡ done (
          some (
            record { command = c; args = done_args ++ args; is_config = false },
            record { rest = some rest; offset = off + length (concat (map bulk args)) },
          ))
unfolding parse_elements
parse_args [] done_args i c rest off h room = rw (append-nil, add-zero)
parse_args (s ∷ args) done_args i c rest off ((ok, short), h) room =
    let texts : Bytes = concat (map bulk args) in
    let p : Partial = record { command = c; args = done_args; is_config = false } in
    let ih =
      parse_args args (done_args ++ s ∷ []) (suc i) c rest (off + length (bulk s)) h
        (omega (arith, length-append done_args (s ∷ []))) in
    rw
      (
        append_assoc (bulk s) texts rest,
        parse_element-bulk (suc i) p s (texts ++ rest) off ok short,
        store_arg i s c done_args (omega arith),
      )
      (simp (ih, append_assoc, length-append, add_assoc))

name-IsArg : (c : Command) → IsArg (cmd_to_string c)
unfolding cmd_to_string
name-IsArg Command.unknown = omega arith
name-IsArg _ = omega arith

abbrev pub encoding : Request → Bytes
encoding req = concat (encoded_parts req)

encoding-append :
    (req : Request) (rest : Bytes)
    → encoding req ++ rest
      ≡ (b'*' ∷ print_nat (length req.args + 1))
        ++ (13 ∷ 10 ∷ (bulk (cmd_to_string req.command) ++ (concat (map bulk req.args) ++ rest)))
unfolding encoded_parts
encoding-append req rest = simp append_assoc

length-encoding :
    (req : Request)
    → length (encoding req)
      ≡ length (b'*' ∷ print_nat (length req.args + 1))
        + 2
        + length (bulk (cmd_to_string req.command))
        + length (concat (map bulk req.args))
unfolding encoded_parts
length-encoding req =
    let n : Bytes = print_nat (length req.args + 1) in
    let name : Bytes = bulk (cmd_to_string req.command) in
    omega (
      arith,
      length-append (n ++ crlf) (name ++ concat (map bulk req.args)),
      length-append n crlf,
      length-append name (concat (map bulk req.args)),
    )

parse-All :
    (req : Request) (rest : Bytes) (off : ℕ)
    → cmd_to_string req.command ≢ codes "UNKNOWN"
    → All IsArg req.args
    → length req.args ≤ 16
    → parse_elements
        (length req.args + 1)
        0
        (record { command = Command.unknown; args = []; is_config = false })
        (record {
          rest = some (bulk (cmd_to_string req.command) ++ (concat (map bulk req.args) ++ rest));
          offset = off;
        })
      ≡ done (
          some (
            record { command = req.command; args = req.args; is_config = false },
            record {
              rest = some rest;
              offset =
                  off
                  + length (bulk (cmd_to_string req.command))
                  + length (concat (map bulk req.args));
            },
          ))
unfolding parse_elements
parse-All req rest off named ok room =
    let name : Bytes = cmd_to_string req.command in
    let start : Partial = record { command = Command.unknown; args = []; is_config = false } in
    let (line_ok, short) = name-IsArg req.command in
    rw
      (
        add-one,
        parse_element-bulk 0 start name (concat (map bulk req.args) ++ rest) off line_ok short,
        store_name req.command Command.unknown named,
      )
      (parse_args req.args [] 0 req.command rest (off + length (bulk name)) ok (omega arith))

pub parse-encoding :
    (req : Request) (rest : Bytes)
    → cmd_to_string req.command ≢ codes "UNKNOWN"
    → All IsArg req.args
    → length req.args ≤ 16
    → parse (record { rest = some (encoding req ++ rest); offset = 0 })
      ≡ done (some (req, record { rest = some rest; offset = length (encoding req) }))
unfolding parse get_prefix behind
parse-encoding req rest named ok room =
    let n : ℕ = length req.args + 1 in
    let header : Bytes = b'*' ∷ print_nat n in
    let tail : Bytes = bulk (cmd_to_string req.command) ++ (concat (map bulk req.args) ++ rest) in
    let first =
      get_line-append header tail ((omega arith, omega arith), header-IsLine n)
        (omega (arith, length-print_nat n)) in
    let moved = advance-append header tail 0 in
    rw (rw (← encoding-append req rest) at first) (
      rw
        (
          rw (← encoding-append req rest) at moved,
          atoi-print_nat n (omega arith),
          parse-All req rest _ named ok room,
        )
        (rw length-encoding (rw zero-add refl)))

-- For a request with a named command and at most 16 arguments of at most 255 bytes, with no carriage
-- return and no NUL among them, whose encoding is shorter than the buffer: what
-- `copy_request_toBuffer` writes and `send` sends is read back by `parse` as that request, whatever
-- follows it, and the cursor stands behind it.
pub parse-copy_request_to_buffer :
    (req : Request) (size : ℕ) (rest : Bytes)
    → cmd_to_string req.command ≢ codes "UNKNOWN"
    → All IsArg req.args
    → length req.args ≤ 16
    → length (concat (encoded_parts req)) < size
    → (bytes : Bytes) × ((copy_request_to_buffer req size >>= sent_bytes size) ≡ done bytes)
      × (parse (record { rest = some (bytes ++ rest); offset = 0 })
          ≡ done (some (req, record { rest = some rest; offset = length bytes })))
unfolding copy_request_to_buffer
parse-copy_request_to_buffer req size rest named ok room fit = (
  encoding req,
  rw (print_all-fits size (encoded_parts req) [] (omega arith))
      (sent_bytes-fits size (encoding req) fit),
  parse-encoding req rest named ok room,
)
