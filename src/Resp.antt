-- ===== src/Resp.antt =====
-- The RESP protocol: src/parser.c and the encoder of src/main.c.
pub mod Command
pub mod CommandNames
pub mod Request
pub mod Parse
pub mod Encode
pub mod Lines
pub mod RoundTrip
