-- ===== src/Mvcc.antt =====
-- tasks/mvcc-btree-wal-recovery: the write-ahead log, transactions and the versioned store.
pub mod Wal
pub mod Engine
mod Examples
