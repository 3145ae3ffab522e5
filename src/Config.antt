-- ===== src/Config.antt =====
-- src/config: the builder structs of the two clients and how they are lowered into a request.
pub mod Types
pub mod Subscriptions
pub mod Common
pub mod Standalone
pub mod Cluster
pub mod Urls
pub mod Lowering
pub mod Connection
pub mod Redaction
