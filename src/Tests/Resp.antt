-- ===== src/Tests/Resp.antt =====
-- Requests and their text on concrete inputs: src/parser.c, and `copy_request_toBuffer` of src/main.c.
use codecrafters_redis_c.Base.{
  ◌<◌, Bytes, codes, crlf, str_eq, [], ◌∷◌, ◌++◌, some, ◌≡◌, ◌≢◌, refl, arith, length,
}
use codecrafters_redis_c.Outcome.{done, ◌>>=◌}
use codecrafters_redis_c.Libc.{atoi, upper, print_nat, print_all, sent_bytes, concat, bulk}
use codecrafters_redis_c.Resp.Command.{Command, find_redis_cmd, cmd_to_string}
use codecrafters_redis_c.Resp.Request.{Request}
use codecrafters_redis_c.Resp.Parse.{
  Cursor, get_line, get_prefix, behind, parse_elements, parse_element, advance, store_element,
  parse,
}
use codecrafters_redis_c.Resp.Encode.{array_header, encoded_parts, copy_request_to_buffer}
use codecrafters_redis_c.Resp.RoundTrip.{parse-copy_request_to_buffer}

crlf_bytes : crlf ≡ 13 ∷ 10 ∷ []
crlf_bytes = refl

abbrev get_x : Request
get_x = record { command = Command.get; args = codes "x" ∷ [] }

get_x_text :
    (copy_request_to_buffer get_x 1024 >>= sent_bytes 1024)
    ≡ done (codes "*2\r\n$3\r\nGET\r\n$1\r\nx\r\n")
unfolding copy_request_to_buffer print_all sent_bytes print_nat bulk array_header cmd_to_string
get_x_text = refl

get_named : cmd_to_string Command.get ≢ codes "UNKNOWN"
unfolding cmd_to_string
get_named h = cc h

get_x_fits : length (concat (encoded_parts get_x)) < 1024
unfolding encoded_parts print_nat bulk array_header cmd_to_string
get_x_fits = omega arith

parse-copy_request_to_buffer_example :
    (bytes : Bytes) × ((copy_request_to_buffer get_x 1024 >>= sent_bytes 1024) ≡ done bytes)
    × (parse (record { rest = some (bytes ++ codes "*1\r\n"); offset = 0 })
        ≡ done (some (get_x, record { rest = some (codes "*1\r\n"); offset = length bytes })))
parse-copy_request_to_buffer_example =
    parse-copy_request_to_buffer get_x 1024 (codes "*1\r\n") get_named
      ((((omega arith, omega arith), tt), omega arith), tt) (omega arith) get_x_fits

abbrev get_x_cursor : Cursor
get_x_cursor = record { rest = some (codes "*2\r\n$3\r\nGET\r\n$1\r\nx\r\n"); offset = 0 }

get_x_parsed : parse get_x_cursor ≡ done (some (get_x, record { rest = some []; offset = 20 }))
unfolding parse get_line get_prefix atoi behind parse_elements parse_element advance store_element
    str_eq upper find_redis_cmd
get_x_parsed = refl
