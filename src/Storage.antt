-- ===== src/Storage.antt =====
-- storage/: the ordered map, the key-value store and the write-ahead log.
pub mod OrderedMap
pub mod KvStore
pub mod Wal
