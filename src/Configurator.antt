-- ===== src/Configurator.antt =====
-- apps/api/src/modules/configurator.
pub mod Data
pub mod Grouping
pub mod Pricing
pub mod Validate
pub mod Validity
pub mod Prices
pub mod Specificity
pub mod Delays
pub mod Tests
