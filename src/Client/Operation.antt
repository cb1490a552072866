-- ===== src/Client/Operation.antt =====
-- User operations of the tooling: test/UserOperation.ts, `packUserOp` of test/UserOp.ts, and the
-- packing of test/testutils.ts, in lib/account-abstraction.
pub mod Packing
pub mod Fill
use bounded_spending_account.Prelude.{
  ℕ, Bool, ◌+◌, ◌*◌, ◌^◌, Option, none, some, [], ◌++◌, length, leb, ltb, not, ◌&&◌, ◌==◌,
  if◌then◌else◌,
}
use bounded_spending_account.Solidity.{Address}
use bounded_spending_account.Solidity.Bytes.{Bytes, from_be, to_be}
use bounded_spending_account.UserOp.{PackedUserOperation}
use bounded_spending_account.Client.{
  Try, returned, ◌>>=◌, ◌>>◌, throw_if, value_out_of_range, string_length,
}

-- `UserOperation`; the paymaster is `none` where it is undefined.
pub record UserOperation : Type 0 where
  pub sender : Address
  pub nonce : ℕ
  pub init_code : Bytes
  pub call_data : Bytes
  pub call_gas_limit : ℕ
  pub verification_gas_limit : ℕ
  pub pre_verification_gas : ℕ
  pub max_fee_per_gas : ℕ
  pub max_priority_fee_per_gas : ℕ
  pub paymaster : Option Bytes
  pub paymaster_verification_gas_limit : ℕ
  pub paymaster_post_op_gas_limit : ℕ
  pub paymaster_data : Bytes
  pub signature : Bytes

-- `hexZeroPad(hexlify(n), 16)`
unfoldable pub pad16 : ℕ → Try Bytes
pad16 n = do throw_if (leb (2 ^ 128) n) value_out_of_range; returned (to_be 16 n)

-- `packAccountGasLimits`, the 32 bytes of which are a number here
unfoldable pub pack_account_gas_limits : ℕ → ℕ → Try ℕ
pack_account_gas_limits high low = do
  first ← pad16 high
  second ← pad16 low
  returned (from_be (first ++ second))

-- `packPaymasterData`
unfoldable pub pack_paymaster_data : Bytes → ℕ → ℕ → Bytes → Try Bytes
pack_paymaster_data paymaster verification_gas_limit post_op_gas_limit paymaster_data = do
  first ← pad16 verification_gas_limit
  second ← pad16 post_op_gas_limit
  returned (paymaster ++ (first ++ (second ++ paymaster_data)))

-- The test of `packUserOp` for a paymaster: a hex string of 20 characters or more that is not
-- `AddressZero`.
unfoldable pub has_paymaster : Bytes → Bool
has_paymaster paymaster =
    leb 20 (string_length paymaster) && not ((length paymaster == 20) && (from_be paymaster == 0))

-- `paymasterAndData` of `packUserOp`
unfoldable pub packed_paymaster : UserOperation → Try Bytes
packed_paymaster op = elim op.paymaster [
  | none ↦ returned []
  | some paymaster ↦
      if has_paymaster paymaster
      then pack_paymaster_data paymaster op.paymaster_verification_gas_limit
          op.paymaster_post_op_gas_limit op.paymaster_data
      else returned []
]

-- `packUserOp`
unfoldable pub pack_user_op : UserOperation → Try PackedUserOperation
pack_user_op op = do
  account_gas_limits ← pack_account_gas_limits op.verification_gas_limit op.call_gas_limit
  gas_fees ← pack_account_gas_limits op.max_priority_fee_per_gas op.max_fee_per_gas
  paymaster_and_data ← packed_paymaster op
  returned (record {
    sender = op.sender;
    nonce = op.nonce;
    init_code = op.init_code;
    call_data = op.call_data;
    account_gas_limits = account_gas_limits;
    pre_verification_gas = op.pre_verification_gas;
    gas_fees = gas_fees;
    paymaster_and_data = paymaster_and_data;
    signature = op.signature;
  })
