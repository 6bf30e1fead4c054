-- ===== src/Mysql.antt =====
-- kinugasa-mysql: the tables and the statements that the repository runs on them.
pub mod Tables
pub mod Columns
pub mod Order
pub mod ActiveRecordings
pub mod Takes
pub mod Recordings
pub mod Cameras
pub mod Pending
pub mod Examples
