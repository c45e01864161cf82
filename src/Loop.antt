-- ===== src/Loop.antt =====
-- The loop of `main` of src/main.c: a received buffer, clients that come and go, and time limits.
pub mod Buffer
pub mod Pipeline
pub mod Queued
pub mod Timers
pub mod Connections
pub mod Invariant
pub mod Closing
pub mod Runs
