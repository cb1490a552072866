-- ===== src/Account/Entry/Access.antt =====
-- Who may call the external functions of src/SpendingAccount.sol, and what a call that succeeds has
-- passed.
use bounded_spending_account.Prelude.{
  ℕ, ◌+◌, ◌≤◌, ◌≡◌, ◌≢◌, sym, ap, subst, ◌∙◌, arith, ltb, ◌==◌, not, List,
}
use bounded_spending_account.Solidity.{
  Address, not_from_entry_point, not_vault_owner, no_withdraw_requested, withdraw_timelock_not_met,
  Result, ok, checked_add,
}
use bounded_spending_account.Solidity.Laws.{
  >>=-eq-ok, revert_if-eq-ok, ok-injective, checked_add-eq-ok,
}
use bounded_spending_account.Solidity.Bytes.{Bytes}
use bounded_spending_account.Solidity.Abi.{Call}
use bounded_spending_account.UserOp.{PackedUserOperation}
use bounded_spending_account.UserOp.Cost.{get_usdc_gas_cost_if_paymaster}
use bounded_spending_account.Account.{
  Config, Account, withdraw_timelock, emit, emergency_withdraw_executed,
}
use bounded_spending_account.Account.Spending.{
  check_and_update_panic_cooldown, validate_preflight_limits, apply_spend_and_update,
}
use bounded_spending_account.Account.Parsing.{
  Spend, parse_spend_amounts, parse_spend_amounts_from_call_data, add_up, nothing,
}
use bounded_spending_account.Account.World.{World, Chain, call_or_revert}
use bounded_spending_account.Account.Entry.{
  validate_signature, pay_prefund, validate_user_op, validate_and_record_spend, execute, do_calls,
  execute_batch, emergency_withdraw, withdraw_eth, withdraw_usdc,
}

-- What a successful validation has computed, step by step.
pub record IsValidated {Rest : Type 0} (chain : Chain Rest) (c : Config) (now basefee : ℕ)
    (sender : Address) (op : PackedUserOperation) (user_op_hash missing : ℕ) (w : World Rest)
    (validation_data : ℕ) (w' : World Rest) : Type 0 where
  pub from_entry_point : sender ≡ c.entry_point
  pub signature : validate_signature chain c op user_op_hash ≡ ok validation_data
  pub spend : Spend
  pub parsed : parse_spend_amounts_from_call_data op.call_data ≡ ok spend
  pub gas_cost : ℕ
  pub priced : get_usdc_gas_cost_if_paymaster c.paymaster c.usdc_per_eth basefee op ≡ ok gas_cost
  pub account : Account
  pub validates :
      validate_preflight_limits c now spend.eth (spend.usdc + gas_cost) w.account ≡ ok account
  pub world : w' ≡ pay_prefund chain c sender missing (record w { account = account })

module _ {Rest : Type 0} (chain : Chain Rest) (c : Config) (now : ℕ) where
  pub validate_user_op-IsValidated :
      (basefee : ℕ) (sender : Address) (op : PackedUserOperation) (user_op_hash missing : ℕ)
      (w : World Rest) {validation_data : ℕ} {w' : World Rest}
      → validate_user_op chain c now basefee sender op user_op_hash missing w
        ≡ ok (validation_data, w')
      → IsValidated chain c now basefee sender op user_op_hash missing w validation_data w'
  unfolding validate_user_op
  validate_user_op-IsValidated basefee sender op user_op_hash missing w h =
      let guard = not (sender == c.entry_point) in
      let (from, h1) = revert_if-eq-ok guard not_from_entry_point _ h in
      let (validation, signs, h2) = >>=-eq-ok (validate_signature chain c op user_op_hash) _ h1 in
      let (spend, parses, h3) = >>=-eq-ok (parse_spend_amounts_from_call_data op.call_data) _ h2 in
      let (gas_cost, prices, h4) =
        >>=-eq-ok (get_usdc_gas_cost_if_paymaster c.paymaster c.usdc_per_eth basefee op) _ h3 in
      let (usdc, adds, h5) = >>=-eq-ok (checked_add spend.usdc gas_cost) _ h4 in
      let (account, validates, h6) =
        >>=-eq-ok (validate_preflight_limits c now spend.eth usdc w.account) _ h5 in
      let sum = (checked_add-eq-ok spend.usdc gas_cost adds).0 in
      let last = ok-injective h6 in
      record {
        from_entry_point = ground arith;
        signature = signs ∙ ap (λ p. ok p.0) last;
        spend = spend;
        parsed = parses;
        gas_cost = gas_cost;
        priced = prices;
        account = account;
        validates =
            subst (λ k. validate_preflight_limits c now spend.eth k w.account ≡ ok account) sum
              validates;
        world = sym (ap (λ p. p.1) last);
      }

-- What a spend, of one call or of a batch, has passed before any call is made.
pub record IsRecorded (c : Config) (now : ℕ) (spends : Result Spend) (s s' : Account) : Type 0 where
  pub spend : Spend
  pub parsed : spends ≡ ok spend
  pub cooled : Account
  pub cools : check_and_update_panic_cooldown c now spend.eth spend.usdc s ≡ ok cooled
  pub applies : apply_spend_and_update c now spend.eth spend.usdc cooled ≡ ok s'

-- A successful `execute`: the entry point has called, the spend is recorded, and the call is made.
pub record IsExecuted {Rest : Type 0} (chain : Chain Rest) (c : Config) (now : ℕ)
    (sender target : Address) (value : ℕ) (payload : Bytes) (w w' : World Rest) : Type 0 where
  pub from_entry_point : sender ≡ c.entry_point
  pub account : Account
  pub recorded : IsRecorded c now (parse_spend_amounts target value payload) w.account account
  pub called :
      call_or_revert chain c.this target value payload (record w { account = account }) ≡ ok w'

-- A successful `executeBatch`.
pub record IsBatchExecuted {Rest : Type 0} (chain : Chain Rest) (c : Config) (now : ℕ)
    (sender : Address) (calls : List Call) (w w' : World Rest) : Type 0 where
  pub from_entry_point : sender ≡ c.entry_point
  pub account : Account
  pub recorded : IsRecorded c now (add_up calls nothing) w.account account
  pub called : do_calls chain c calls (record w { account = account }) ≡ ok w'

module _ {Rest : Type 0} (chain : Chain Rest) (c : Config) (now : ℕ) where
  validate_and_record_spend-IsRecorded :
      (target : Address) (value : ℕ) (payload : Bytes) (s : Account) {s' : Account}
      → validate_and_record_spend chain c now target value payload s ≡ ok s'
      → IsRecorded c now (parse_spend_amounts target value payload) s s'
  unfolding validate_and_record_spend
  validate_and_record_spend-IsRecorded target value payload s h =
      let (spend, parses, h1) = >>=-eq-ok (parse_spend_amounts target value payload) _ h in
      let (cooled, cools, applies) =
        >>=-eq-ok (check_and_update_panic_cooldown c now spend.eth spend.usdc s) _ h1 in
      record { spend = spend; parsed = parses; cooled = cooled; cools = cools; applies = applies }

  pub execute-IsExecuted :
      (sender target : Address) (value : ℕ) (payload : Bytes) (w : World Rest) {w' : World Rest}
      → execute chain c now sender target value payload w ≡ ok w'
      → IsExecuted chain c now sender target value payload w w'
  unfolding execute
  execute-IsExecuted sender target value payload w h =
      let (from, h1) = revert_if-eq-ok (not (sender == c.entry_point)) not_from_entry_point _ h in
      let (account, records, h2) =
        >>=-eq-ok (validate_and_record_spend chain c now target value payload w.account) _ h1 in
      record {
        from_entry_point = ground arith;
        account = account;
        recorded = validate_and_record_spend-IsRecorded target value payload w.account records;
        called = h2;
      }

  pub execute_batch-IsBatchExecuted :
      (sender : Address) (calls : List Call) (w : World Rest) {w' : World Rest}
      → execute_batch chain c now sender calls w ≡ ok w'
      → IsBatchExecuted chain c now sender calls w w'
  unfolding execute_batch
  execute_batch-IsBatchExecuted sender calls w h =
      let (from, h1) = revert_if-eq-ok (not (sender == c.entry_point)) not_from_entry_point _ h in
      let (total, adds, h2) = >>=-eq-ok (add_up calls nothing) _ h1 in
      let (cooled, cools, h3) =
        >>=-eq-ok (check_and_update_panic_cooldown c now total.eth total.usdc w.account) _ h2 in
      let (account, applies, h4) =
        >>=-eq-ok (apply_spend_and_update c now total.eth total.usdc cooled) _ h3 in
      record {
        from_entry_point = ground arith;
        account = account;
        recorded = record {
          spend = total;
          parsed = adds;
          cooled = cooled;
          cools = cools;
          applies = applies;
        };
        called = h4;
      }

-- `emergencyWithdrawRequestTime = 0`
abbrev pub clear_request : {Rest : Type 0} → World Rest → World Rest
clear_request w = record w { account = record (w.account) { emergency_withdraw_request_time = 0 } }

-- A successful `emergencyWithdraw`: the owner has called, 48 hours or more after a request.
pub record IsWithdrawn {Rest : Type 0} (chain : Chain Rest) (c : Config) (now : ℕ)
    (sender recipient : Address) (w w' : World Rest) : Type 0 where
  pub from_owner : sender ≡ c.vault_owner
  pub pending : w.account.emergency_withdraw_request_time ≢ 0
  pub unlocked : w.account.emergency_withdraw_request_time + withdraw_timelock ≤ now
  pub after_eth : World Rest
  pub withdraws_eth : withdraw_eth chain c recipient (w.eth c.this) (clear_request w) ≡ ok after_eth
  pub usdc_amount : ℕ
  pub after_usdc : World Rest
  pub withdraws_usdc : withdraw_usdc chain c recipient after_eth ≡ ok (usdc_amount, after_usdc)
  pub world : w' ≡ record after_usdc {
    account =
        emit now
          (emergency_withdraw_executed recipient (w.eth c.this) usdc_amount)
          after_usdc.account;
  }

module _ {Rest : Type 0} (chain : Chain Rest) (c : Config) (now : ℕ) where
  pub emergency_withdraw-IsWithdrawn :
      (sender recipient : Address) (w : World Rest) {w' : World Rest}
      → emergency_withdraw chain c now sender recipient w ≡ ok w'
      → IsWithdrawn chain c now sender recipient w w'
  unfolding emergency_withdraw
  emergency_withdraw-IsWithdrawn sender recipient w h =
      let requested = w.account.emergency_withdraw_request_time in
      let (from, h1) = revert_if-eq-ok (not (sender == c.vault_owner)) not_vault_owner _ h in
      let (asked, h2) = revert_if-eq-ok (requested == 0) no_withdraw_requested _ h1 in
      let (unlocks, adds, h3) = >>=-eq-ok (checked_add requested withdraw_timelock) _ h2 in
      let (old, h4) = revert_if-eq-ok (ltb now unlocks) withdraw_timelock_not_met _ h3 in
      let (w1, eth, h5) =
        >>=-eq-ok (withdraw_eth chain c recipient (w.eth c.this) (clear_request w)) _ h4 in
      let ((amount, w2), usdc, h6) = >>=-eq-ok (withdraw_usdc chain c recipient w1) _ h5 in
      let sum = (checked_add-eq-ok requested withdraw_timelock adds).0 in
      record {
        from_owner = ground arith;
        pending = ground arith;
        unlocked = ground arith;
        after_eth = w1;
        withdraws_eth = eth;
        usdc_amount = amount;
        after_usdc = w2;
        withdraws_usdc = usdc;
        world = sym (ok-injective h6);
      }
