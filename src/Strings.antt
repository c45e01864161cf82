-- ===== src/Strings.antt =====
-- SET, GET, TYPE, ECHO and PING of src/handler.c.
pub mod Commands
pub mod SetGet
