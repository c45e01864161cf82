-- ===== src/Tests.antt =====
-- Runs of the code on concrete inputs, and the theorems applied to them.
pub mod Keyspace
pub mod Lists
pub mod Resp
pub mod Transactions
pub mod ZSets
pub mod Channels
pub mod Strings
pub mod Streams
pub mod Dispatch
pub mod Loop
pub mod Rdb
