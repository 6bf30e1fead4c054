-- ===== src/Application.antt =====
-- kinugasa-core/src/application: the use cases.
pub mod Errors
pub mod RecordingState
pub mod Cameras
pub mod MediaCoordinator
pub mod Tasks
pub mod UploadCoordinator
pub mod Takes
pub mod Settling
pub mod Examples
