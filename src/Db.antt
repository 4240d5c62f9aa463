-- ===== src/Db.antt =====
-- librange/db/berkeley_dbcxx_*.cpp: records by name in Berkeley DB, and the transactions before it
pub mod Keys
pub mod Change
pub mod Txn
pub mod Pending
pub mod Commit
pub mod Write
mod Tests
pub mod Ranges
