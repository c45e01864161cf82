-- ===== src/Dispatch.antt =====
-- The rest of `handle` of src/handler.c, behind the transaction commands.
pub mod Commands
pub mod Laws
pub mod Isolation
pub mod Watched
