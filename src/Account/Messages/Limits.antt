-- ===== src/Account/Messages/Limits.antt =====
-- The limits of src/SpendingAccount.sol over the life of a deployed account.
use bounded_spending_account.Prelude.{ℕ, ◌+◌, ◌≤◌, ◌≡◌, ◌≢◌, subst, sym}
use bounded_spending_account.Solidity.{Address, ok}
use bounded_spending_account.Solidity.Laws.{>>=-eq-ok, ok-injective}
use bounded_spending_account.LimitPolicy.{daily_window, monthly_window}
use bounded_spending_account.Account.{Config}
use bounded_spending_account.Account.World.{World, Chain}
use bounded_spending_account.Account.Entry.{validate_user_op, receive}
use bounded_spending_account.Account.Entry.Steps.{
  IsIsolated, validate_user_op-Trace, execute-Trace, execute_batch-Trace, pay_for_gas_in_usdc-Trace,
  add_deposit-Trace, request_emergency_withdraw-Trace,
}
use bounded_spending_account.Account.Entry.Steps.Withdrawals.{emergency_withdraw-Trace}
use bounded_spending_account.Account.History.{Reach, created, later, Trace, done, Reach-Trace}
use bounded_spending_account.Account.History.Usdc.{usdc_total, usdc_counters_never_reset}
use bounded_spending_account.Account.History.Eth.{eth_between, any_window_within_twice_the_limits}
use bounded_spending_account.Account.History.Requests.{IsRequested, IsPending-was_requested}
use bounded_spending_account.Account.Messages.{
  Message, validate_user_op_call, execute_call, execute_batch_call, pay_for_gas_in_usdc_call,
  receive_call, add_deposit_call, request_emergency_withdraw_call, emergency_withdraw_call, handle,
  handled, reverted, elsewhere, Life, deployed, wait, step,
}

module _ {Rest : Type 0} (chain : Chain Rest) (c : Config) where
  pub handle-Trace :
      {now : ℕ}
      → IsIsolated chain c now
      → (sender : Address) (message : Message) (w : World Rest) {w' : World Rest}
      → handle chain c now sender message w ≡ ok w'
      → Trace c now w.account w'.account
  unfolding handle receive
  handle-Trace {now} iso sender (validate_user_op_call basefee op user_op_hash missing) w h =
      let validates = validate_user_op chain c now basefee sender op user_op_hash missing w in
      let ((data_word, v), validated_to, e) = >>=-eq-ok validates _ h in
      subst (λ x. Trace c now w.account x.account) (ok-injective e)
        (validate_user_op-Trace chain c now iso basefee sender op user_op_hash missing w
          validated_to)
  handle-Trace {now} iso sender (execute_call target value payload) w h =
      execute-Trace chain c now iso sender target value payload w h
  handle-Trace {now} iso sender (execute_batch_call calls) w h =
      execute_batch-Trace chain c now iso sender calls w h
  handle-Trace {now} iso sender (pay_for_gas_in_usdc_call gas gas_then amount) w h =
      pay_for_gas_in_usdc-Trace chain c now iso gas gas_then sender amount w h
  handle-Trace {now} iso sender (receive_call value) w h =
      subst (λ x. Trace c now w.account x.account) (ok-injective h) done
  handle-Trace {now} iso sender (add_deposit_call value) w h =
      add_deposit-Trace chain c now iso value _ h
  handle-Trace {now} iso sender request_emergency_withdraw_call w h =
      request_emergency_withdraw-Trace chain c now iso sender w h
  handle-Trace {now} iso sender (emergency_withdraw_call recipient) w h =
      emergency_withdraw-Trace chain c now iso sender recipient w h

module _ {Rest : Type 0} (chains : ℕ → Chain Rest) (c : Config) where
  module _ (iso : (now : ℕ) → IsIsolated (chains now) c now) where
    pub Life-Reach : {now : ℕ} {w : World Rest} → Life chains c now w → Reach c now w.account
    Life-Reach {now} (deployed e) = subst (λ a. Reach c now a) (sym e) (created now)
    Life-Reach (wait now' h l) = later now' h (Life-Reach l)
    Life-Reach {now} (step {w = w} l (handled sender message h)) =
        Reach-Trace (Life-Reach l) (handle-Trace (chains now) c (iso now) sender message w h)
    Life-Reach (step l (reverted sender message e h)) = Life-Reach l
    Life-Reach {now} (step l (elsewhere e)) = subst (λ a. Reach c now a) (sym e) (Life-Reach l)

    -- If other contracts change the account's storage only by calls into the account, in the same
    -- block, then whatever messages anyone has sent to a deployed account, at whatever times, in
    -- any 24 hours the ETH recorded as spent is at most twice the daily limit, and in any 30 days
    -- at most twice the monthly limit.
    pub Life-eth_within_twice_the_limits :
        {now : ℕ} {w : World Rest}
        → Life chains c now w
        → (lo : ℕ)
        → (eth_between lo (lo + daily_window) w.account.logs
            ≤ c.daily_eth_limit + c.daily_eth_limit)
          × (eth_between lo (lo + monthly_window) w.account.logs
              ≤ c.monthly_eth_limit + c.monthly_eth_limit)
    Life-eth_within_twice_the_limits l = any_window_within_twice_the_limits (Life-Reach l)

    -- If other contracts change the account's storage only by calls into the account, in the same
    -- block, then whatever messages anyone has sent to a deployed account, all USDC that it has
    -- ever recorded as spent is within the daily limit, and within the monthly limit.
    pub Life-usdc_within_the_limits :
        {now : ℕ} {w : World Rest}
        → Life chains c now w
        → (usdc_total w.account.logs ≤ c.daily_usdc_limit)
          × (usdc_total w.account.logs ≤ c.monthly_usdc_limit)
    Life-usdc_within_the_limits l =
        let i = usdc_counters_never_reset (Life-Reach l) in
        (
          subst (λ k. k ≤ c.daily_usdc_limit) i.daily i.daily_le,
          subst (λ k. k ≤ c.monthly_usdc_limit) i.monthly i.monthly_le,
        )

    -- If other contracts change the account's storage only by calls into the account, in the same
    -- block, then whatever messages anyone has sent to a deployed account, the time of a pending
    -- emergency withdrawal is that of a request in the logs, and has passed.
    pub Life-pending_was-IsRequested :
        {now : ℕ} {w : World Rest}
        → Life chains c now w
        → w.account.emergency_withdraw_request_time ≢ 0
        → (w.account.emergency_withdraw_request_time ≤ now)
          × IsRequested w.account.emergency_withdraw_request_time w.account.logs
    Life-pending_was-IsRequested l = IsPending-was_requested (Life-Reach l)
