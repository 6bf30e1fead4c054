-- ===== src/Storage.antt =====
-- kinugasa-s3/src/lib.rs: the object storage. Keys names an object, Hashing reads the recording, Client
-- reads the answers of the service, Upload puts them together.
pub mod Config
pub mod Keys
pub mod Hashing
pub mod Client
pub mod Upload
pub mod Stored
pub mod Examples
