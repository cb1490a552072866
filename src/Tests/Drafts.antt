-- ===== src/Tests/Drafts.antt =====
-- Tests of the operations that `AASigner` of lib/account-abstraction/src/AASigner.ts creates.
use bounded_spending_account.Prelude.{
  false, ◌*◌, ◌^◌, ◌+◌, ◌≡◌, refl, [], ◌∷◌, none, some, replicate,
}
use bounded_spending_account.Solidity.Bytes.{Bytes, from_be, from_be_onto, to_be, to_be_onto}
use bounded_spending_account.UserOp.{PackedUserOperation}
use bounded_spending_account.Client.{Try, returned}
use bounded_spending_account.Client.Operation.{
  UserOperation, pad16, pack_account_gas_limits, has_paymaster, packed_paymaster, pack_user_op,
}
use bounded_spending_account.Client.Operation.Fill.Signed.{sent_operation_was_signed}
use bounded_spending_account.Client.Operation.Fill.{
  PartialOp, Node, is_eip7702_code, need, present, estimate_creation, fill_creation, fill_init,
  estimate_call, find_call_gas, find_max_fee, fill_paymaster, fill_fields, fill_user_op_defaults,
  fill_pre_verification, fill_user_op,
}
use bounded_spending_account.Client.Operation.Fill.Sign.{
  fill_sign_and_pack, provider_of, async_sign_user_op, fill_and_sign,
}
use bounded_spending_account.Client.Signer.{
  new_signer, Network, Transaction, partial_of, account_or_predicted, sync_account, overridden,
  value_or_zero, draft_user_operation,
}

-- No account has code yet; the factory predicts 71.
abbrev undeployed : Network
undeployed = record {
  get_code = λ a. [];
  account_address = λ salt. 71 + salt;
  account_init_code = λ salt. 8 ∷ salt ∷ [];
  network_chain_id = 8453;
  execute_data = λ to value payload. to ∷ payload;
}

abbrev node : Node
node = record {
  entry_point = 4337;
  get_code = λ a. [];
  get_transaction_count = λ a. 0;
  get_nonce = λ a. returned 0;
  get_sender_address = λ init_code. returned 71;
  sender_creator = 4338;
  estimate_gas = λ from to payload. returned 100;
  base_fee_per_gas = 30;
}

abbrev payment : Transaction
payment = record {
  to = 77;
  value = none;
  payload = 6 ∷ [];
  nonce = some 5;
  gas_limit = some 5000;
  gas_price = some 9;
  max_priority_fee_per_gas = none;
  max_fee_per_gas = none;
}

-- The signature of a packed operation shows its nonce and the length of its call data.
abbrev sign : PackedUserOperation → Try Bytes
sign packed = returned (packed.nonce ∷ packed.call_data)

abbrev created : UserOperation
created = record {
  sender = 71;
  nonce = 2;
  init_code = 8 ∷ 0 ∷ [];
  call_data = 77 ∷ 6 ∷ [];
  call_gas_limit = 5000;
  verification_gas_limit = 150100;
  pre_verification_gas = 21000;
  max_fee_per_gas = 9;
  max_priority_fee_per_gas = 9;
  paymaster = some (replicate 20 0);
  paymaster_verification_gas_limit = 300000;
  paymaster_post_op_gas_limit = 0;
  paymaster_data = [];
  signature = 2 ∷ 77 ∷ 6 ∷ [];
}

abbrev partial : PartialOp
partial = partial_of (draft_user_operation undeployed 2 payment new_signer).0

-- `created`, packed.
abbrev sent : PackedUserOperation
sent = record {
  sender = 71;
  nonce = 2;
  init_code = 8 ∷ 0 ∷ [];
  call_data = 77 ∷ 6 ∷ [];
  account_gas_limits = 150100 * 2 ^ 128 + 5000;
  pre_verification_gas = 21000;
  gas_fees = 9 * 2 ^ 128 + 9;
  paymaster_and_data = [];
  signature = 2 ∷ 77 ∷ 6 ∷ [];
}

sends_created :
    fill_sign_and_pack (λ code salt. 0) (λ op. returned op.call_data) sign (some node) none partial
    ≡ returned sent
unfolding draft_user_operation partial_of account_or_predicted sync_account overridden value_or_zero
    new_signer fill_sign_and_pack fill_and_sign fill_user_op fill_init fill_creation
    estimate_creation find_call_gas find_max_fee fill_paymaster fill_fields fill_user_op_defaults
    fill_pre_verification async_sign_user_op is_eip7702_code need present provider_of estimate_call
    pack_user_op pack_account_gas_limits packed_paymaster has_paymaster pad16 from_be from_be_onto
    to_be to_be_onto
sends_created = refl

plain_code : is_eip7702_code sent.init_code ≡ false
unfolding is_eip7702_code
plain_code = refl

sent_operation_was_signed_example :
    (unsigned : Bytes) × (sign (record sent { signature = unsigned }) ≡ returned sent.signature)
sent_operation_was_signed_example =
    sent_operation_was_signed (λ code salt. 0) (λ op. returned op.call_data) sign (some node) none
      partial sends_created plain_code
