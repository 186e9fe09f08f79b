-- ===== src/Storage.antt =====
-- internal/storage: the tables of results and bookmarks.
pub mod Failures
pub mod Database
pub mod Bookmarks
pub mod Results
pub mod Transactions
mod Samples
mod Tests
