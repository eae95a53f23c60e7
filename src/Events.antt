-- ===== src/Events.antt =====
-- The package events.
pub mod EventError
pub mod Wire
pub mod Retry
pub mod Dispatcher
pub mod Bus
pub mod Setup
pub mod Pubsub
pub mod Eventbridge
pub mod Sns
pub mod Push
pub mod Sqs
pub mod Endpoint
pub mod Headers
mod Tests
