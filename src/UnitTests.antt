-- ===== src/UnitTests.antt =====
-- Unit tests of the sources, as functions that panic where an assertion fails.
mod CounterTests
pub mod ServerTests
pub mod AuthorityTests
pub mod DefaultsTests
pub mod InventoryTests
pub mod LookupTests
pub mod ReadingTests
