-- ===== src/Paymaster.antt =====
-- src/SpendingPaymaster.sol, with the two hooks of
-- lib/account-abstraction/contracts/core/BasePaymaster.sol that it fills.
pub mod Collects
pub mod Charges
pub mod Funds
use bounded_spending_account.Prelude.{ℕ, ◌^◌, length, not, ltb, ◌==◌, if◌then◌else◌}
use bounded_spending_account.Solidity.{
  Address, bad_encoding, cost_cap_exceeded, post_op_gas_too_low, insufficient_usdc_balance,
  sender_not_entry_point, Result, ok, ◌>>=◌, ◌>>◌, revert_if,
}
use bounded_spending_account.Solidity.Bytes.{Bytes, to_be}
use bounded_spending_account.Solidity.Abi.{decode_address}
use bounded_spending_account.UserOp.{
  PackedUserOperation, paymaster_data_offset, unpack_post_op_gas_limit,
}
use bounded_spending_account.UserOp.Cost.{cost_in_usdc}
use bounded_spending_account.Account.Entry.{sig_validation_success}

-- `MAX_COST_CAP`, 0.01 ether
abbrev pub max_cost_cap : ℕ
max_cost_cap = 10 ^ 16

-- `MIN_POSTOP_GAS`
abbrev pub min_post_op_gas : ℕ
min_post_op_gas = 100000

-- The immutables of the contract.
pub record Paymaster : Type 0 where
  pub entry_point : Address
  pub usdc_per_eth : ℕ

-- `PostOpMode` of lib/account-abstraction/contracts/interfaces/IPaymaster.sol
pub data PostOpMode : Type 0 where
  op_succeeded op_reverted post_op_reverted : PostOpMode

-- The test of the gas limit, made only where the static fields are there.
unfoldable pub check_post_op_gas : PackedUserOperation → Result (Unit {0})
check_post_op_gas op =
    if ltb (length op.paymaster_and_data) paymaster_data_offset
    then ok tt
    else revert_if (ltb (unpack_post_op_gas_limit op) min_post_op_gas)
        (post_op_gas_too_low (unpack_post_op_gas_limit op) min_post_op_gas)

-- `_validatePaymasterUserOp`, where `usdc_balance` is the token's `balanceOf`
unfoldable pub validate_paymaster_user_op_internal :
    Paymaster → (Address → ℕ) → PackedUserOperation → ℕ → Result (Bytes × ℕ)
validate_paymaster_user_op_internal p usdc_balance op max_cost = do
  check_post_op_gas op
  revert_if (ltb max_cost_cap max_cost) (cost_cap_exceeded max_cost max_cost_cap)
  cost ← cost_in_usdc p.usdc_per_eth max_cost
  revert_if (ltb (usdc_balance op.sender) cost) (insufficient_usdc_balance op.sender cost)
  ok (to_be 32 op.sender, sig_validation_success)

-- `validatePaymasterUserOp`
unfoldable pub validate_paymaster_user_op :
    Paymaster → (Address → ℕ) → Address → PackedUserOperation → ℕ → Result (Bytes × ℕ)
validate_paymaster_user_op p usdc_balance sender op max_cost = do
  revert_if (not (sender == p.entry_point)) sender_not_entry_point
  validate_paymaster_user_op_internal p usdc_balance op max_cost

module _ {W : Type 0} (pay_for_gas : Address → ℕ → W → Result W) (p : Paymaster) where
  -- `_postOp`, where `pay_for_gas` is the call of `payForGasInUsdc` on the contract at an address;
  -- the mode and the fee are unused
  unfoldable pub post_op_internal : PostOpMode → Bytes → ℕ → ℕ → W → Result W
  post_op_internal mode context actual_gas_cost actual_user_op_fee_per_gas w = do
    revert_if (ltb (length context) 32) bad_encoding
    account ← decode_address context 0
    cost ← cost_in_usdc p.usdc_per_eth actual_gas_cost
    pay_for_gas account cost w

  -- `postOp`
  unfoldable pub post_op : Address → PostOpMode → Bytes → ℕ → ℕ → W → Result W
  post_op sender mode context actual_gas_cost actual_user_op_fee_per_gas w = do
    revert_if (not (sender == p.entry_point)) sender_not_entry_point
    post_op_internal mode context actual_gas_cost actual_user_op_fee_per_gas w
