-- ===== src/Repairs.antt =====
-- apps/api/src/modules/repairs.
pub mod Data
pub mod Cases
pub mod Status
pub mod Locking
pub mod Trail
pub mod Qr
pub mod Creation
mod Tests
