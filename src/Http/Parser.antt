-- ===== src/Http/Parser.antt =====
-- http/parser.go and http/adapt.go.
pub mod Numbers
pub mod Schema
pub mod Plan
pub mod Bind
pub mod Unknown
pub mod Planned
pub mod Claims
pub mod Reasons
pub mod Widths
pub mod Steady
pub mod Values
pub mod Stored
pub mod Parsing
mod Tests
