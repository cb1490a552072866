-- ===== src/Client/Signer/Drafts.antt =====
-- The operations that `AASigner` of lib/account-abstraction/src/AASigner.ts creates, with `fillAndSign`
-- of test/UserOp.ts.
use bounded_spending_account.Solidity.Bytes.{Bytes}
use bounded_spending_account.Client.Signer.{Signer}
