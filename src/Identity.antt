-- ===== src/Identity.antt =====
-- apps/api/src/modules/identity.
pub mod Sessions
pub mod Tokens
pub mod Users
pub mod Auth
pub mod AccessTokens
pub mod SignedTokens
pub mod Rotation
pub mod Reuse
mod Tests
mod TokenTests
pub mod Listings
pub mod Lockout
pub mod SingleUse
