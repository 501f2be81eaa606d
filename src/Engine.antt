-- ===== src/Engine.antt =====
-- The engine between the two rings (apps/engine, src/engine, include/hft/engine): it turns events of
-- the feed into orders.
pub mod Risk
pub mod Oms
pub mod FillSim
pub mod Table
pub mod Maker
pub mod Book
pub mod Packet
pub mod Dispatch
mod Tests
