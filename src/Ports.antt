-- ===== src/Ports.antt =====
-- kinugasa-core/src/ports: the values that the use cases exchange with the repository and with the
-- media server.
pub mod Repository
pub mod Pages
pub mod Names
pub mod Hex
pub mod Certificates
pub mod Examples
