-- ===== src/Ldb.antt =====
-- masswallet/db/ldb/leveldb.go: nested buckets in the flat key space of a LevelDB.
pub mod Path
pub mod Batch
pub mod Transaction
pub mod Names
pub mod Bucket
