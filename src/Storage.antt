-- ===== src/Storage.antt =====
-- src/storage: the trait of the chunk stores, and the stores on the local file system and on S3.
pub mod Trait
pub mod Local
pub mod S3
