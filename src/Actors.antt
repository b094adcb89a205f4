-- ===== src/Actors.antt =====
-- The actor database of a node: server/src/node/actors/.
-- An actor's address is its key in the router's maps, since the router makes one actor for each
-- key and never replaces it. What a handler sends is a list of effects, in order: `do_send` and
-- `try_send` belong to actix and tokio. The text of a debug message is not modelled.
pub mod Messages
pub mod Explained
pub mod Account
pub mod Card
pub mod Router
pub mod System
