-- ===== src/Version.antt =====
-- The package http/version.
pub mod Scheme
pub mod Search
pub mod Resolver
pub mod Endpoint
pub mod Registrar
pub mod Typed
mod Tests
