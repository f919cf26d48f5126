-- ===== src/Fuse.antt =====
-- fuse/: a file system that keeps the names and the content of its files encrypted.
pub mod Crypt
pub mod Listing
pub mod Path
pub mod Operations
pub mod Tests
