-- ===== src/Shared.antt =====
-- packages/shared/src/index.ts: the rules that the API and the web client share.
pub mod Flows
pub mod Gate
pub mod Money
pub mod Fx
pub mod Clerk
pub mod Cases
pub mod Region
pub mod Recommendations
