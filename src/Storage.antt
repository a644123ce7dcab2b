-- ===== src/Storage.antt =====
-- storage/: the index in memory and the files of objects.
pub mod Index
pub mod Store
pub mod Conflict
