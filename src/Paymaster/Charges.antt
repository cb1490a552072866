-- ===== src/Paymaster/Charges.antt =====
-- An operation that src/SpendingAccount.sol has validated, and src/SpendingPaymaster.sol accepted, is
-- charged: the two contracts together.
use bounded_spending_account.Solidity.Bytes.{Bytes}
use bounded_spending_account.Account.{Account}
use bounded_spending_account.Account.World.{World}
use bounded_spending_account.Paymaster.{Paymaster}
