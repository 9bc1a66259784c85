-- ===== src/Storage.antt =====
-- crates/storage: the storage interface and its two backends.
pub mod Samples
pub mod Traits
pub mod Key
pub mod Local
pub mod S3
