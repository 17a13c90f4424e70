-- ===== src/Tests.antt =====
-- Runs of the model on concrete values.
pub mod Toy
pub mod World
pub mod Signing
pub mod Messages
pub mod Connections
pub mod Settings
pub mod Plain
pub mod Calm
pub mod Harness
pub mod Passing
mod Templates
pub mod Places
mod Lookups
mod Interleaved
mod Whole
mod Visits
mod Delivered
mod Orders
mod Launched
pub mod Launch
