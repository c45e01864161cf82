-- ===== src/ZSets.antt =====
-- Sorted sets: the commands on them of src/set_handler.c, without the geographic ones.
pub mod Entries
pub mod Commands
pub mod Queries
pub mod Order
pub mod Members
pub mod SortedSet
pub mod Scores
pub mod Handlers
