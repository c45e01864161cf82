-- ===== src/Config.antt =====
-- CONFIG GET, KEYS and the append-only file: src/rdb_handler.c and `write_to_file` of src/handler.c.
pub mod Commands
