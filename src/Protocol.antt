-- ===== src/Protocol.antt =====
-- pkg/protocol: the messages between nodes and their byte formats.
pub mod Message
pub mod Codec
pub mod Fields
pub mod Handshake
pub mod Control
pub mod Peers
pub mod Inv
mod Tests
mod PayloadTests
