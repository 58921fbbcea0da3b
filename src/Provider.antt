-- ===== src/Provider.antt =====
-- The Docker provider (pkg/provider): containers of a function, and the plan that scales it.
pub mod Docker
pub mod Operations
pub mod Listing
pub mod Networks
pub mod Create
pub mod Resources
pub mod Containers
pub mod Plan
pub mod Reconciler
pub mod Tests
