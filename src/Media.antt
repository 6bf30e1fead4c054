-- ===== src/Media.antt =====
-- kinugasa-media/src: the media server. Sockets, threads, channels and the muxing of packets are
-- calls of libraries; what is here is the bookkeeping between them.
pub mod Sets
pub mod Routes
pub mod Ports
pub mod Recorder
pub mod Worker
pub mod Statistics
pub mod PortPool
pub mod Registry
pub mod Previews
pub mod Examples
