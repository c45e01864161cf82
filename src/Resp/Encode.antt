-- ===== src/Resp/Encode.antt =====
-- `copy_request_toBuffer` of src/main.c: what is sent to replicas, and (with the same format, in
-- `write_to_file` of src/handler.c) what is written to the append-only file.
use codecrafters_redis_c.Base.{ℕ, ◌+◌, Bytes, crlf, List, ◌∷◌, ◌++◌, length, map}
use codecrafters_redis_c.Outcome.{Outcome}
use codecrafters_redis_c.Libc.{Buffer, empty_buffer, print_all, print_nat, bulk}
use codecrafters_redis_c.Resp.Command.{cmd_to_string}
use codecrafters_redis_c.Resp.Request.{Request}

-- "*%d\r\n"
unfoldable pub array_header : ℕ → Bytes
array_header n = b'*' ∷ (print_nat n ++ crlf)

-- The texts of the successive `snprintf` calls.
unfoldable pub encoded_parts : Request → List Bytes
unfolding array_header
encoded_parts req =
    array_header (length req.args + 1) ∷ bulk (cmd_to_string req.command) ∷ map bulk req.args

unfoldable pub copy_request_to_buffer : Request → ℕ → Outcome Buffer
unfolding encoded_parts
copy_request_to_buffer req size = print_all size (encoded_parts req) empty_buffer
