-- ===== src/Tests/Charges.antt =====
-- A test of src/SpendingAccount.sol and src/SpendingPaymaster.sol together.
use bounded_spending_account.Prelude.{◌+◌, ◌*◌, ◌^◌, ◌++◌}
use bounded_spending_account.Solidity.Bytes.{to_be}
use bounded_spending_account.UserOp.{PackedUserOperation}
use bounded_spending_account.Account.Spending.Agreement.{after_eth_spend}
use bounded_spending_account.Account.World.{World}
use bounded_spending_account.Paymaster.{Paymaster}
use bounded_spending_account.Tests.{fresh, world, small, operation}

abbrev paymaster : Paymaster
paymaster = record { entry_point = 1; usdc_per_eth = 3000000000 }

-- 50000 of gas, and 100000 for `postOp`, at 1 gwei
abbrev paid_operation : PackedUserOperation
paid_operation = record (operation small) {
  pre_verification_gas = 50000;
  gas_fees = 1000000000 * 2 ^ 128 + 1000000000;
  paymaster_and_data = to_be 20 3 ++ to_be 16 0 ++ to_be 16 100000;
}

abbrev recorded : World (Unit {0})
recorded = record world { account = after_eth_spend 1200 small fresh }
