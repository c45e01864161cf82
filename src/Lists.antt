-- ===== src/Lists.antt =====
-- The list commands: src/list_handler.c.
pub mod Array
pub mod ArrayLaws
pub mod Commands
pub mod Pops
pub mod Pushes
pub mod PushHandlers
pub mod PopHandlers
pub mod Queries
pub mod Ranges
pub mod Blocking
pub mod Wakes
