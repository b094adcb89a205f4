-- ===== src/Clients.antt =====
-- The clients of the cluster: client/src/.
pub mod NodeClient
pub mod Link
pub mod Administrator
