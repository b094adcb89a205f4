-- ===== src/Network.antt =====
-- The connections between the nodes: common/src/network/.
pub mod Frames
pub mod Heartbeats
pub mod Connection
mod Tests
