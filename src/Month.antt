-- ===== src/Month.antt =====
-- Month: the spending limit of a calendar month that all the processes share
-- (lib/anthropic-monthly-budget.js), and the prices it counts with (lib/anthropic-pricing.js).
pub mod Settings
pub mod Report
pub mod Pricing
pub mod Bound
pub mod PriceTable
pub mod Usage
pub mod UsageSum
pub mod UsageRead
pub mod UsageComplete
pub mod LegacyCost
pub mod Hash
pub mod Store
pub mod Client
pub mod Settlement
pub mod Recovery
pub mod Books
pub mod Ceiling
pub mod Within
pub mod Poison
pub mod AuthorizeSteps
pub mod SettleSteps
pub mod Refines
pub mod Covered
pub mod FailClosed
