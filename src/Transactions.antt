-- ===== src/Transactions.antt =====
-- Transactions: src/transaction_handler.c, with `notify_watchers` and the first part of `handle` of
-- src/handler.c.
pub mod Incr
pub mod Watch
pub mod Queue
pub mod Queueing
pub mod Watching
pub mod Turns
pub mod Releasing
pub mod Counting
