-- ===== src/Gateway.antt =====
-- The HTTP handlers of pkg/gateway/handlers.go, over the store and the provider that they call.
pub mod Types
pub mod Services
pub mod Names
pub mod GitUrl
pub mod Metadata
pub mod Deploy
pub mod Built
pub mod BuildRequest
pub mod Build
pub mod Route
pub mod Scale
pub mod Health
pub mod Invoke
pub mod Laws
pub mod Tests
