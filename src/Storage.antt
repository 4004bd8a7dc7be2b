-- ===== src/Storage.antt =====
-- internal/storage: a message is parsed and written under the storage root, one directory for each
-- recipient and day.
pub mod Errors
pub mod Result
pub mod Folder
pub mod Body
pub mod Message
pub mod Deliver
mod Tests
