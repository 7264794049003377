-- ===== src/Budget.antt =====
-- Budget: the spending limit of one research run (lib/ai-budget.js).
pub mod Reservations
pub mod Run
pub mod Limit
pub mod Settling
pub mod Calls
