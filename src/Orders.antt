-- ===== src/Orders.antt =====
-- The adapter to the order pipeline, customer-web/src/lib/dr.ts: placing a cart as one order for each
-- restaurant, and reading the orders back as one view.
pub mod Token
pub mod Status
pub mod Views
pub mod Place
pub mod Ingestion
mod Tests
