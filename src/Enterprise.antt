-- ===== src/Enterprise.antt =====
-- internal/enterprise: the installation of the app framework and of the modules on it.
pub mod Text
pub mod Records
pub mod Scripts
pub mod Plan
pub mod Manifests
pub mod Cluster
pub mod Addresses
pub mod Preflight
pub mod Introspect
pub mod Manager
mod Tests
