-- ===== src/Backfill.antt =====
-- The cost backfill (lib/ktmbcost/client.go): it asks zinc for the bookings whose KTMB cost or refund
-- is missing, reads the amount from KTMB, and posts it to zinc.
pub mod World
pub mod Raw
pub mod Listing
pub mod Item
pub mod Run
