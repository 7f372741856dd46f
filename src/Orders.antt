-- ===== src/Orders.antt =====
-- apps/api/src/modules/orders.
pub mod Addresses
pub mod Defaults
pub mod Data
pub mod Carts
pub mod Checkout
pub mod Create
pub mod Once
pub mod Listings
pub mod Merging
pub mod Amounts
mod Tests
