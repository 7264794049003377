-- ===== src/Risk.antt =====
-- What restricts a proposal: the drawdown breaker (lib/circuit-breaker.js), the size of an order
-- (lib/proposal-sizing.js), the state check before execution (lib/approval-validity.js) and the
-- rules of the risk engine (lib/risk-engine.js).
pub mod Breaker
pub mod Restriction
pub mod Ratchet
pub mod Approval
pub mod Validity
pub mod Sizing
pub mod Engine
pub mod MandateClamp
pub mod ClampSafety
pub mod Admission
