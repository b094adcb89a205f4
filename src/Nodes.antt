-- ===== src/Nodes.antt =====
-- The nodes of the cluster: server/src/node/. A handler's sends, replies to the station and commands
-- for the database are a list of effects, in order.
pub mod Effects
pub mod Leader
pub mod Replica
pub mod Elections
pub mod Promotions
pub mod Loop
mod Start
pub mod Joins
pub mod Requests
mod Tests
