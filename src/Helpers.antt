-- ===== src/Helpers.antt =====
-- linode/helper: retries, conversions of numbers, and sets that take no notice of case.
pub mod Retries
pub mod Numbers
pub mod Tags
pub mod Attributes
mod Tests
