-- ===== src/Channels.antt =====
-- Publish and subscribe: src/channels_handler.c.
pub mod Commands
pub mod Publishing
