-- ===== src/Client.antt =====
-- src/client: the two clients.
pub mod PubSub
pub mod Connect
pub mod ClusterScan
pub mod Adapter
