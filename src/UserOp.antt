-- ===== src/UserOp.antt =====
-- lib/account-abstraction/contracts/core/UserOperationLib.sol, as far as the contracts use it, and
-- the struct of interfaces/PackedUserOperation.sol.
pub mod Cost
use bounded_spending_account.Prelude.{ℕ, ◌+◌, ◌/◌, ◌%◌, ◌^◌, take, drop, ltb, if◌then◌else◌}
use bounded_spending_account.Solidity.{Address, word_mod}
use bounded_spending_account.Solidity.Bytes.{Bytes, from_be}

-- The two fields of type bytes32 are numbers here.
pub record PackedUserOperation : Type 0 where
  pub sender : Address
  pub nonce : ℕ
  pub init_code : Bytes
  pub call_data : Bytes
  pub account_gas_limits : ℕ
  pub pre_verification_gas : ℕ
  pub gas_fees : ℕ
  pub paymaster_and_data : Bytes
  pub signature : Bytes

-- `PAYMASTER_DATA_OFFSET`
abbrev pub paymaster_data_offset : ℕ
paymaster_data_offset = 52

unfoldable pub unpack_high128 : ℕ → ℕ
unpack_high128 packed = packed / 2 ^ 128

unfoldable pub unpack_low128 : ℕ → ℕ
unpack_low128 packed = packed % 2 ^ 128

-- `gasPrice`, in a block with the given base fee; the sum is unchecked.
unfoldable pub gas_price : ℕ → PackedUserOperation → ℕ
unfolding unpack_high128 unpack_low128
gas_price basefee op =
    let capped = (unpack_high128 op.gas_fees + basefee) % word_mod in
    if ltb (unpack_low128 op.gas_fees) capped then unpack_low128 op.gas_fees else capped

unfoldable pub unpack_verification_gas_limit : PackedUserOperation → ℕ
unfolding unpack_high128
unpack_verification_gas_limit op = unpack_high128 op.account_gas_limits

unfoldable pub unpack_call_gas_limit : PackedUserOperation → ℕ
unfolding unpack_low128
unpack_call_gas_limit op = unpack_low128 op.account_gas_limits

-- The three static fields of `paymasterAndData`, for one of 52 bytes or more.
unfoldable pub unpack_paymaster : PackedUserOperation → Address
unpack_paymaster op = from_be (take 20 op.paymaster_and_data)

unfoldable pub unpack_paymaster_verification_gas_limit : PackedUserOperation → ℕ
unpack_paymaster_verification_gas_limit op = from_be (take 16 (drop 20 op.paymaster_and_data))

unfoldable pub unpack_post_op_gas_limit : PackedUserOperation → ℕ
unpack_post_op_gas_limit op = from_be (take 16 (drop 36 op.paymaster_and_data))
