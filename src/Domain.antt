-- ===== src/Domain.antt =====
-- kinugasa-core/src/domain: the values and entities of the recording system.
pub mod Values
pub mod Paths
pub mod Camera
pub mod Recording
pub mod Take
pub mod Intervals
pub mod Examples
