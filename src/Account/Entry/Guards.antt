-- ===== src/Account/Entry/Guards.antt =====
-- Calls of src/SpendingAccount.sol that are refused: from the wrong sender, before the timelock,
-- and after a large spend.
use bounded_spending_account.Prelude.{
  ℕ, true, false, ◌+◌, ◌<◌, ◌≡◌, ◌≢◌, ◌⊎◌, refl, ap, sym, ◌∙◌, arith, ◌==◌, not, if◌then◌else◌,
  List,
}
use bounded_spending_account.Solidity.{
  Address, not_from_entry_point, not_from_paymaster, not_vault_owner, no_withdraw_requested,
  withdraw_timelock_not_met, large_spend_cooldown_active, word_mod, ok, revert, checked_add,
}
use bounded_spending_account.Solidity.Laws.{ok-injective}
use bounded_spending_account.Solidity.Bytes.{Bytes}
use bounded_spending_account.Solidity.Abi.{Call}
use bounded_spending_account.UserOp.{PackedUserOperation}
use bounded_spending_account.Account.{Config, withdraw_timelock, cooldown_period}
use bounded_spending_account.Account.Spending.{
  check_and_update_panic_cooldown, validate_preflight_limits,
}
use bounded_spending_account.Account.Spending.Cooldown.{IsLarge, large_preflight_blocks_execution}
use bounded_spending_account.Account.Parsing.{
  Spend, parse_spend_amounts, parse_spend_amounts_from_call_data,
}
use bounded_spending_account.Account.World.{World, Chain}
use bounded_spending_account.Account.Entry.{
  pay_prefund, validate_user_op, validate_and_record_spend, execute, execute_batch,
  pay_for_gas_in_usdc, request_emergency_withdraw, emergency_withdraw,
}
use bounded_spending_account.Account.Entry.Access.{validate_user_op-IsValidated}
use bounded_spending_account.UserOp.Cost.{get_usdc_gas_cost_if_paymaster}

module _ {Rest : Type 0} (chain : Chain Rest) (c : Config) (now : ℕ) (sender : Address)
    (w : World Rest) where
  -- Whoever is not the entry point can neither validate nor execute, one call or a batch.
  pub others_cannot_execute :
      sender ≢ c.entry_point
      → ((basefee : ℕ) (op : PackedUserOperation) (user_op_hash missing : ℕ)
          → validate_user_op chain c now basefee sender op user_op_hash missing w
            ≡ revert not_from_entry_point)
        × ((target : Address) (value : ℕ) (payload : Bytes)
            → execute chain c now sender target value payload w ≡ revert not_from_entry_point)
        × ((calls : List Call)
            → execute_batch chain c now sender calls w ≡ revert not_from_entry_point)
  unfolding validate_user_op execute execute_batch
  others_cannot_execute other =
      let refused : not (sender == c.entry_point) ≡ true = ground arith in
      (
        λ basefee op user_op_hash missing. rw refused,
        λ target value payload. rw refused,
        λ calls. rw refused,
      )

  -- Whoever is neither the paymaster nor the owner can neither charge for gas nor request or make
  -- an emergency withdrawal.
  pub others_cannot_charge_or_withdraw :
      sender ≢ c.paymaster
      → sender ≢ c.vault_owner
      → (gas gas_then amount : ℕ) (recipient : Address)
      → (pay_for_gas_in_usdc chain c now gas gas_then sender amount w ≡ revert not_from_paymaster)
        × (request_emergency_withdraw chain c now sender w ≡ revert not_vault_owner)
        × (emergency_withdraw chain c now sender recipient w ≡ revert not_vault_owner)
  unfolding pay_for_gas_in_usdc request_emergency_withdraw emergency_withdraw
  others_cannot_charge_or_withdraw no_paymaster no_owner gas gas_then amount recipient =
      let uncharged : not (sender == c.paymaster) ≡ true = ground arith in
      let refused : not (sender == c.vault_owner) ≡ true = ground arith in
      (rw uncharged, rw refused, rw refused)

  -- If the end of the timelock fits into a word, the owner's emergency withdrawal is refused when
  -- no request is pending, and before 48 hours have passed since the last request, each with its
  -- own error.
  pub early_withdrawal_is_refused :
      (recipient : Address)
      → sender ≡ c.vault_owner
      → w.account.emergency_withdraw_request_time + withdraw_timelock < word_mod
      → (w.account.emergency_withdraw_request_time ≡ 0)
        ⊎ (now < w.account.emergency_withdraw_request_time + withdraw_timelock)
      → emergency_withdraw chain c now sender recipient w
        ≡ revert (
            if w.account.emergency_withdraw_request_time == 0
            then no_withdraw_requested
            else withdraw_timelock_not_met)
  unfolding emergency_withdraw checked_add
  early_withdrawal_is_refused recipient owner b early = ground arith

module _ {Rest : Type 0} (chain : Chain Rest) (c : Config) (now : ℕ) where
  -- A validated operation that is large cannot be executed: once it has been validated without a
  -- prefund, at a time other than 0, then within the hour, so also in the same block, the entry
  -- point's call of `execute` with any spend that can be parsed reverts, if the end of the hour
  -- fits into a word.
  pub large_operation_cannot_execute :
      (basefee : ℕ) (op : PackedUserOperation) (user_op_hash : ℕ) (w : World Rest)
      {validation_data : ℕ} {w' : World Rest} {spend : Spend} {gas_cost : ℕ} (later : ℕ)
      (target : Address) (value : ℕ) (payload : Bytes) {spend' : Spend}
      → validate_user_op chain c now basefee c.entry_point op user_op_hash 0 w
        ≡ ok (validation_data, w')
      → parse_spend_amounts_from_call_data op.call_data ≡ ok spend
      → get_usdc_gas_cost_if_paymaster c.paymaster c.usdc_per_eth basefee op ≡ ok gas_cost
      → IsLarge c spend.eth (spend.usdc + gas_cost)
      → parse_spend_amounts target value payload ≡ ok spend'
      → 0 < now
      → later < now + cooldown_period
      → now + cooldown_period < word_mod
      → execute chain c later c.entry_point target value payload w'
        ≡ revert large_spend_cooldown_active
  unfolding execute validate_and_record_spend pay_prefund
  large_operation_cannot_execute basefee op user_op_hash w {w' = w'} {spend} {gas_cost} later target
        value payload {spend'} h parses prices large parses' p soon b =
      let v =
        validate_user_op-IsValidated chain c now basefee c.entry_point op user_op_hash 0 w h in
      let spends : v.spend ≡ spend = ok-injective (sym v.parsed ∙ parses) in
      let costs : v.gas_cost ≡ gas_cost = ok-injective (sym v.priced ∙ prices) in
      let validates : validate_preflight_limits c now spend.eth (spend.usdc + gas_cost) w.account
          ≡ ok v.account =
        rw (sym spends, sym costs) v.validates in
      let left : w'.account ≡ v.account = ap (λ x. x.account) v.world in
      let stops : check_and_update_panic_cooldown c later spend'.eth spend'.usdc w'.account
          ≡ revert large_spend_cooldown_active =
        rw left (
          large_preflight_blocks_execution c now later spend.eth (spend.usdc + gas_cost) spend'.eth
            spend'.usdc w.account validates large p soon b) in
      let from : not (c.entry_point == c.entry_point) ≡ false = ground arith in
      rw (from, parses', stops) refl
