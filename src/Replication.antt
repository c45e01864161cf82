-- ===== src/Replication.antt =====
-- Replication: src/utility_handler.c, and the part of src/main.c that passes writes on.
pub mod Commands
pub mod Laws
