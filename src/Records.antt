-- ===== src/Records.antt =====
-- Records: rows of the sheet and their signatures (lib/investor-ledger.js,
-- lib/operational-ledger-rows.js, lib/operational-ledger.js, lib/ledger-verify.js).
pub mod Cells
pub mod InvestorRow
pub mod InvestorRoundTrip
pub mod Secrets
pub mod Verify
pub mod SignedRows
