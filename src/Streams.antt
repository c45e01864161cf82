-- ===== src/Streams.antt =====
-- Streams: XADD, XRANGE, XREAD of src/handler.c, with the stream functions of src/utils.c.
pub mod Ids
pub mod Reading
pub mod Add
pub mod Words
pub mod Xread
pub mod Posts
pub mod Selecting
pub mod XreadLaws
pub mod Validation
pub mod Adding
pub mod XaddLaws
pub mod XaddStar
pub mod XaddPartial
pub mod Spelling
pub mod Waking
pub mod Multiple
pub mod Delivery
