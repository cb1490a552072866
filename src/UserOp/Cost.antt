-- ===== src/UserOp/Cost.antt =====
-- The price of gas in USDC: `_getUsdcGasCostIfPaymaster` of src/SpendingAccount.sol, and the
-- arithmetic that src/SpendingPaymaster.sol repeats in both of its hooks.
pub mod Bounds
use bounded_spending_account.Prelude.{ℕ, ◌+◌, ◌/◌, ◌^◌, length, not, ltb, ◌==◌, if◌then◌else◌}
use bounded_spending_account.Solidity.{Address, Result, ok, ◌>>=◌, checked_add, checked_mul}
use bounded_spending_account.UserOp.{
  PackedUserOperation, paymaster_data_offset, gas_price, unpack_verification_gas_limit,
  unpack_call_gas_limit, unpack_paymaster, unpack_paymaster_verification_gas_limit,
  unpack_post_op_gas_limit,
}

-- `PREMIUM_BPS`, 5%
abbrev pub premium_bps : ℕ
premium_bps = 500

-- An amount of wei with the premium, at a rate of USDC units for 10^18 wei.
unfoldable pub cost_in_usdc : ℕ → ℕ → Result ℕ
cost_in_usdc usdc_per_eth cost_eth = do
  premium ← checked_mul cost_eth premium_bps
  cost_with_premium ← checked_add cost_eth (premium / 10000)
  scaled ← checked_mul cost_with_premium usdc_per_eth
  ok (scaled / 10 ^ 18)

-- The largest cost in wei that the gas fields of an operation allow.
unfoldable pub max_cost_eth : ℕ → PackedUserOperation → Result ℕ
max_cost_eth basefee op = do
  gas1 ← checked_add op.pre_verification_gas (unpack_verification_gas_limit op)
  gas2 ← checked_add gas1 (unpack_call_gas_limit op)
  gas3 ← checked_add gas2 (unpack_paymaster_verification_gas_limit op)
  required_gas ← checked_add gas3 (unpack_post_op_gas_limit op)
  checked_mul required_gas (gas_price basefee op)

-- `_getUsdcGasCostIfPaymaster`, for an account with the given paymaster and rate.
unfoldable pub get_usdc_gas_cost_if_paymaster : Address → ℕ → ℕ → PackedUserOperation → Result ℕ
get_usdc_gas_cost_if_paymaster paymaster usdc_per_eth basefee op =
    if ltb (length op.paymaster_and_data) paymaster_data_offset
    then ok 0
    else if not (unpack_paymaster op == paymaster)
    then ok 0
    else (do max_cost ← max_cost_eth basefee op; cost_in_usdc usdc_per_eth max_cost)
