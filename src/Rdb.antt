-- ===== src/Rdb.antt =====
-- The reader of RDB files: src/rdb_handler.c.
pub mod Reader
pub mod StreamValue
pub mod Loading
pub mod Strings
pub mod Dump
