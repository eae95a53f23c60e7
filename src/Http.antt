-- ===== src/Http.antt =====
-- The package http.
pub mod ReqError
pub mod Wire
pub mod Router
pub mod Middleware
pub mod Parser
pub mod Adapt
pub mod Cher
pub mod Oops
mod Tests
