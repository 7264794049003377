-- ===== src/Lots.antt =====
-- Tax lots and what consumes them (lib/tax-lots.js, lib/owned-lots.js, lib/agent-attribution.js,
-- lib/fill-processing.js).
pub mod Lot
pub mod Fifo
pub mod Distinct
pub mod Conservation
pub mod FifoOrder
pub mod Owned
pub mod Ownership
pub mod Attribution
pub mod Matching
pub mod Fills
pub mod Booking
pub mod Fulfilment
pub mod Closure
pub mod ClosureSafety
