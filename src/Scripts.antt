-- ===== src/Scripts.antt =====
-- The scripts around the tooling in lib/account-abstraction: hardhat.config.ts with deploy/*.ts, and
-- src/runop.ts.
pub mod Deployment
pub mod RunOp
