-- ===== src/Files.antt =====
-- src/files.rs: files under the configured root, uploads, and the bodies that they stream.
mod Bodies
pub mod Disk
pub mod Rooted
pub mod Uploads
pub mod Multipart
pub mod Claims
pub mod Range
mod Tests
unfoldable pub use Bodies.*
