-- ===== src/Tests/Contracts.antt =====
-- Tests of src/SpendingPaymaster.sol, src/SpendingAccountFactory.sol and the price of gas.
use bounded_spending_account.Prelude.{
  ℕ, ◌≡◌, ◌≤◌, ◌+◌, ◌^◌, refl, arith, length, [], none, some, ◌==◌, if◌then◌else◌,
}
use bounded_spending_account.Solidity.{Address, Result, ok, checked_add, checked_mul}
use bounded_spending_account.Solidity.Bytes.{to_be, to_be_onto}
use bounded_spending_account.UserOp.Cost.{cost_in_usdc}
use bounded_spending_account.UserOp.Cost.Bounds.{price}
use bounded_spending_account.Paymaster.{
  Paymaster, op_succeeded, check_post_op_gas, validate_paymaster_user_op_internal,
  validate_paymaster_user_op, post_op,
}
use bounded_spending_account.Paymaster.Collects.{
  IsAccepted, validate_paymaster_user_op-IsAccepted, accepted_cost_is_collected,
}
use bounded_spending_account.Account.{construct}
use bounded_spending_account.Factory.{
  Factory, Terms, Creation, Deployed, constructor_args, constructed_config, deploy_at,
  init_code_hash, create_account,
}
use bounded_spending_account.Tests.{small, operation}

abbrev paymaster : Paymaster
paymaster = record { entry_point = 1; usdc_per_eth = 3000000000 }

-- Every account has 4 USDC.
abbrev balances : Address → ℕ
balances a = 4000000

accepted :
    validate_paymaster_user_op paymaster balances 1 (operation small) (10 ^ 15)
    ≡ ok (to_be 32 1000, 0)
unfolding validate_paymaster_user_op validate_paymaster_user_op_internal check_post_op_gas
    cost_in_usdc checked_add checked_mul
accepted = refl

validate_paymaster_user_op-IsAccepted_example :
    IsAccepted paymaster balances 1 (operation small) (10 ^ 15) (to_be 32 1000) 0
validate_paymaster_user_op-IsAccepted_example =
    validate_paymaster_user_op-IsAccepted paymaster balances 1 (operation small) (10 ^ 15) accepted

-- A charge that adds up what it is given.
abbrev charge : Address → ℕ → ℕ → Result ℕ
charge account cost collected = ok (collected + cost)

accepted_cost_is_collected_example :
    (post_op charge paymaster 1 op_succeeded (to_be 32 1000) (10 ^ 14) 7 5
      ≡ charge 1000 (price 3000000000 (10 ^ 14)) 5)
    × (price 3000000000 (10 ^ 14) ≤ 4000000)
accepted_cost_is_collected_example =
    accepted_cost_is_collected charge paymaster balances 1 (operation small) (10 ^ 15) (10 ^ 14) 7
      op_succeeded 5 (omega arith) accepted (omega arith)

abbrev creation : Creation
creation = record {
  creation_code = [];
  keccak256 = λ bs. length bs;
  create2_address = λ creator salt hash. creator + salt + hash;
  compute_address = λ salt hash creator. creator + salt + hash;
}

abbrev factory : Factory
factory = record { this = 50; entry_point = 1; paymaster = 3; usdc_per_eth = 3000000000 }

abbrev terms : Terms
terms = record {
  vault_owner = 2;
  daily_eth_limit = 10;
  monthly_eth_limit = 100;
  daily_usdc_limit = 20;
  monthly_usdc_limit = 200;
}

abbrev nowhere : Deployed
nowhere a = none

-- The account of `terms` and the salt 9 alone.
abbrev one_account : Deployed
one_account a =
    if a == 315 then some (constructed_config factory terms 315, construct 1000) else none

creates : create_account creation factory 1000 terms 9 nowhere ≡ ok (315, one_account)
unfolding create_account init_code_hash constructor_args deploy_at to_be to_be_onto
creates = refl
