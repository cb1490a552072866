-- ===== src/Account/Evm/Ledger.antt =====
-- Where the ETH of the account in src/SpendingAccount.sol goes: what its operations send away, and
-- what they have recorded of that.
use bounded_spending_account.Prelude.{
  ℕ, ◌+◌, ◌≤◌, ◌≡◌, ap, arith, List, [], ◌∷◌, some, ltb, ltb→le, not, ◌==◌, Bool-cases, inl, inr,
}
use bounded_spending_account.Solidity.{
  Address, ok, empty, call_failed, not_from_paymaster, not_vault_owner,
  insufficient_gas_for_usdc_transfer,
}
use bounded_spending_account.Solidity.Laws.{>>=-eq-ok, revert_if-eq-ok, ok-injective}
use bounded_spending_account.Solidity.Bytes.{Bytes}
use bounded_spending_account.Solidity.Abi.{Call}
use bounded_spending_account.UserOp.{PackedUserOperation}
use bounded_spending_account.Account.{
  Config, Account, Log, Event, eth_spent, usdc_spent, emergency_withdraw_requested,
  emergency_withdraw_executed, usdc_address,
}
use bounded_spending_account.Account.Spending.{apply_usdc_spend}
use bounded_spending_account.Account.Spending.Outcome.{logs_after, apply_usdc_spend-IsUsdcSpend}
use bounded_spending_account.Account.Spending.Cooldown.{
  IsCooled, validate_preflight_limits-IsPreflight,
}
use bounded_spending_account.Account.Parsing.Batch.{total_value}
use bounded_spending_account.Account.World.{World, Chain, move_eth, low_level_call, call_or_revert}
use bounded_spending_account.Account.Entry.{
  execute, do_calls, execute_batch, pay_for_gas_in_usdc, add_deposit, request_emergency_withdraw,
  withdraw_eth, transfer_data, transfer_usdc, withdraw_usdc, emergency_withdraw,
  min_gas_for_usdc_transfer, deposit_to_data, validate_user_op, pay_prefund,
}
use bounded_spending_account.Account.Entry.Access.{
  clear_request, emergency_withdraw-IsWithdrawn, validate_user_op-IsValidated,
}
use bounded_spending_account.Account.Entry.Spends.{
  mark_large, executed_call_is_recorded, executed_batch_is_recorded,
}
use bounded_spending_account.Account.Entry.Steps.{called}
use bounded_spending_account.Account.Entry.Steps.Withdrawals.{
  transfer_usdc-called, withdraw_usdc-transfers,
}

-- The ETH that the logs report as spent or withdrawn.
abbrev eth_of : Event → ℕ
eth_of (eth_spent amount) = amount
eth_of (usdc_spent amount) = 0
eth_of emergency_withdraw_requested = 0
eth_of (emergency_withdraw_executed recipient eth usdc) = eth

pub eth_recorded : List Log → ℕ
eth_recorded [] = 0
eth_recorded ((time, event) ∷ logs) = eth_of event + eth_recorded logs

-- The balance of the account, and what it has recorded as gone.
abbrev pub books : {Rest : Type 0} → Config → World Rest → ℕ
books c w = w.eth c.this + eth_recorded w.account.logs

-- A call of another contract leaves no less on the books.
pub record IsSolvent {Rest : Type 0} (chain : Chain Rest) (c : Config) : Type 0 where
  pub keeps :
      (target : Address) (value : ℕ) (payload : Bytes) (w : World Rest) {w' : World Rest}
      {r : Bytes}
      → chain.call target value payload w ≡ some (w', r)
      → books c w ≤ books c w'

eth_recorded-logs_after :
    (now eth usdc : ℕ) (logs : List Log)
    → eth_recorded (logs_after now eth usdc logs) ≡ eth + eth_recorded logs
unfolding eth_recorded
eth_recorded-logs_after now eth usdc logs = ground arith

mark_large-logs : (c : Config) (now eth : ℕ) (s : Account) → (mark_large c now eth s).logs ≡ s.logs
unfolding mark_large
mark_large-logs c now eth s = ground arith

move_eth-source :
    (from to : Address) (value : ℕ) (eth : Address → ℕ)
    → value ≤ eth from
    → eth from ≤ move_eth from to value eth from + value
unfolding move_eth
move_eth-source from to value eth h = ground arith

IsCooled-logs :
    (c : Config) (now eth usdc : ℕ) (s s' : Account)
    → IsCooled c now eth usdc s s'
    → s'.logs ≡ s.logs
IsCooled-logs c now eth usdc s s' i = ground (arith, i.written)

module _ {Rest : Type 0} (chain : Chain Rest) (c : Config) (solvent : IsSolvent chain c) where
  -- A call takes at most its value off the books.
  pub low_level_call-books :
      (target : Address) (value : ℕ) (payload : Bytes) (w : World Rest) {w' : World Rest}
      {r : Bytes}
      → low_level_call chain c.this target value payload w ≡ some (w', r)
      → books c w ≤ books c w' + value
  unfolding low_level_call
  low_level_call-books target value payload w h = elim (Bool-cases (ltb (w.eth c.this) value)) [
    | inl e ↦ absurd (cc (rw e at h))
    | inr e ↦ omega (
      arith,
      solvent.keeps target value payload _ (rw e at h),
      move_eth-source c.this target value w.eth (ltb→le _ _ e),
    )
  ]

  pub call_or_revert-books :
      (target : Address) (value : ℕ) (payload : Bytes) (w : World Rest) {w' : World Rest}
      → call_or_revert chain c.this target value payload w ≡ ok w'
      → books c w ≤ books c w' + value
  unfolding call_or_revert
  call_or_revert-books target value payload w h =
      let (r, e) = called call_failed (low_level_call chain c.this target value payload w) h in
      low_level_call-books target value payload w e

  do_calls-books :
      (calls : List Call) (w : World Rest) {w' : World Rest}
      → do_calls chain c calls w ≡ ok w'
      → books c w ≤ books c w' + total_value calls
  unfolding do_calls total_value
  do_calls-books [] w h = rw (ok-injective h) (omega arith)
  do_calls-books (call ∷ calls) w h =
      let first = call_or_revert chain c.this call.target call.value call.payload w in
      let (v, calls_first, h1) = >>=-eq-ok first _ h in
      omega (
        arith,
        call_or_revert-books call.target call.value call.payload w calls_first,
        do_calls-books calls v h1,
      )

  pub execute-books :
      (now : ℕ) (sender target : Address) (value : ℕ) (payload : Bytes) (w : World Rest)
      {w' : World Rest}
      → execute chain c now sender target value payload w ≡ ok w'
      → books c w ≤ books c w'
  execute-books now sender target value payload w h =
      let (_, _, _, (account, counted, calls)) =
        executed_call_is_recorded chain c now sender target value payload w h in
      omega (
        arith,
        call_or_revert-books target value payload (record w { account = account }) calls,
        ap eth_recorded counted.spend.logs,
        eth_recorded-logs_after now value 0 (mark_large c now value w.account).logs,
        ap eth_recorded (mark_large-logs c now value w.account),
      )

  pub execute_batch-books :
      (now : ℕ) (sender : Address) (calls : List Call) (w : World Rest) {w' : World Rest}
      → execute_batch chain c now sender calls w ≡ ok w'
      → books c w ≤ books c w'
  execute_batch-books now sender calls w h =
      let (_, _, _, (account, counted, does)) =
        executed_batch_is_recorded chain c now sender calls w h in
      omega (
        arith,
        do_calls-books calls (record w { account = account }) does,
        ap eth_recorded counted.spend.logs,
        eth_recorded-logs_after now (total_value calls) 0
            (mark_large c now (total_value calls) w.account).logs,
        ap eth_recorded (mark_large-logs c now (total_value calls) w.account),
      )

  pub pay_for_gas_in_usdc-books :
      (now gas gas_then : ℕ) (sender : Address) (amount : ℕ) (w : World Rest) {w' : World Rest}
      → pay_for_gas_in_usdc chain c now gas gas_then sender amount w ≡ ok w'
      → books c w ≤ books c w'
  unfolding pay_for_gas_in_usdc eth_recorded
  pay_for_gas_in_usdc-books now gas gas_then sender amount w h =
      let h1 = (revert_if-eq-ok (not (sender == c.paymaster)) not_from_paymaster _ h).1 in
      let short = insufficient_gas_for_usdc_transfer gas_then min_gas_for_usdc_transfer in
      let h2 = (revert_if-eq-ok (ltb gas min_gas_for_usdc_transfer) short _ h1).1 in
      let (account, applies, h3) = >>=-eq-ok (apply_usdc_spend c now amount w.account) _ h2 in
      let spend = apply_usdc_spend-IsUsdcSpend c now amount w.account applies in
      omega (
        arith,
        call_or_revert-books usdc_address 0 (transfer_data c.paymaster amount)
            (record w { account = account }) h3,
        ap eth_recorded spend.logs,
      )

  pub add_deposit-books :
      (value : ℕ) (w : World Rest) {w' : World Rest}
      → add_deposit chain c value w ≡ ok w'
      → books c w ≤ books c w' + value
  unfolding add_deposit
  add_deposit-books value w h =
      call_or_revert-books c.entry_point value (deposit_to_data c.this) w
        (revert_if-eq-ok _ _ _ h).1

  withdraw_eth-books :
      (recipient : Address) (eth_amount : ℕ) (w : World Rest) {w' : World Rest}
      → withdraw_eth chain c recipient eth_amount w ≡ ok w'
      → books c w ≤ books c w' + eth_amount
  unfolding withdraw_eth
  withdraw_eth-books recipient eth_amount w h = elim (Bool-cases (eth_amount == 0)) [
    | inl e ↦ rw (ok-injective (rw e at h)) (omega arith)
    | inr e ↦
        let (r, k) =
          called empty (low_level_call chain c.this recipient eth_amount [] w) (rw e at h) in
        low_level_call-books recipient eth_amount [] w k
  ]

  transfer_usdc-books :
      (recipient : Address) (usdc_amount : ℕ) (w : World Rest) {w' : World Rest}
      → transfer_usdc chain c recipient usdc_amount w ≡ ok w'
      → books c w ≤ books c w'
  transfer_usdc-books recipient usdc_amount w h =
      let (r, e) = transfer_usdc-called chain c recipient usdc_amount w h in
      omega (arith, low_level_call-books usdc_address 0 (transfer_data recipient usdc_amount) w e)

  withdraw_usdc-books :
      (recipient : Address) (w : World Rest) {amount : ℕ} {w' : World Rest}
      → withdraw_usdc chain c recipient w ≡ ok (amount, w')
      → books c w ≤ books c w'
  withdraw_usdc-books recipient w h = elim (withdraw_usdc-transfers chain c recipient w h) [
    | inl same ↦ rw same (omega arith)
    | inr transfers ↦ transfer_usdc-books recipient (chain.usdc_balance c.this w) w transfers
  ]

  pub emergency_withdraw-books :
      (now : ℕ) (sender recipient : Address) (w : World Rest) {w' : World Rest}
      → emergency_withdraw chain c now sender recipient w ≡ ok w'
      → books c w ≤ books c w'
  unfolding eth_recorded
  emergency_withdraw-books now sender recipient w h =
      let x = emergency_withdraw-IsWithdrawn chain c now sender recipient w h in
      rw x.world (
        omega (
          arith,
          withdraw_eth-books recipient (w.eth c.this) (clear_request w) x.withdraws_eth,
          withdraw_usdc-books recipient x.after_eth x.withdraws_usdc,
        ))

  pub request_emergency_withdraw-books :
      (now : ℕ) (sender : Address) (w : World Rest) {w' : World Rest}
      → request_emergency_withdraw chain c now sender w ≡ ok w'
      → books c w ≤ books c w'
  unfolding request_emergency_withdraw eth_recorded
  request_emergency_withdraw-books now sender w h =
      let same = revert_if-eq-ok (not (sender == c.vault_owner)) not_vault_owner _ h in
      rw (← ok-injective same.1) (omega arith)

  -- A validation that pays no prefund.
  pub validate_user_op-books :
      (now basefee : ℕ) (sender : Address) (op : PackedUserOperation) (user_op_hash : ℕ)
      (w : World Rest) {validation_data : ℕ} {w' : World Rest}
      → validate_user_op chain c now basefee sender op user_op_hash 0 w ≡ ok (validation_data, w')
      → books c w ≤ books c w'
  unfolding pay_prefund
  validate_user_op-books now basefee sender op user_op_hash w h =
      let x = validate_user_op-IsValidated chain c now basefee sender op user_op_hash 0 w h in
      let usdc = x.spend.usdc + x.gas_cost in
      let p = validate_preflight_limits-IsPreflight c now x.spend.eth usdc w.account x.validates in
      let logs = IsCooled-logs c now x.spend.eth usdc w.account x.account p.cooled in
      rw x.world (omega (arith, ap eth_recorded logs))
