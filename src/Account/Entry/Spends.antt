-- ===== src/Account/Entry/Spends.antt =====
-- What `execute` and `executeBatch` of src/SpendingAccount.sol have recorded by the time that they
-- make their calls.
use bounded_spending_account.Prelude.{ℕ, ◌*◌, ◌/◌, ◌<◌, ◌≡◌, ◌≢◌, subst, ltb, if◌then◌else◌, List}
use bounded_spending_account.Solidity.{Address, word_mod, Result, ok}
use bounded_spending_account.Solidity.Bytes.{Bytes}
use bounded_spending_account.Solidity.Abi.{Call}
use bounded_spending_account.Account.{Config, Account, usdc_address}
use bounded_spending_account.Account.Spending.{
  check_and_update_panic_cooldown, apply_spend_and_update,
}
use bounded_spending_account.Account.Spending.Outcome.{IsSpend, apply_spend_and_update-IsSpend}
use bounded_spending_account.Account.Spending.Cooldown.{
  IsCool, usd_total, check_and_update_panic_cooldown-IsCooled,
}
use bounded_spending_account.Account.Parsing.{Spend}
use bounded_spending_account.Account.Parsing.Accepted.{parse_spend_amounts_iff}
use bounded_spending_account.Account.Parsing.Batch.{AllSends, total_value, add_up_iff}
use bounded_spending_account.Account.World.{World, Chain, call_or_revert}
use bounded_spending_account.Account.Entry.{execute, execute_batch, do_calls}
use bounded_spending_account.Account.Entry.Access.{
  IsRecorded, execute-IsExecuted, execute_batch-IsBatchExecuted,
}

-- The account with the time of its last large spend, once `eth` wei have passed the cooldown test.
unfoldable pub mark_large : Config → ℕ → ℕ → Account → Account
mark_large c now eth s =
    if ltb (c.daily_usdc_limit * 5000 / 10000) (usd_total c eth 0)
    then record s { last_large_spend_time = now }
    else s

-- A spend of `eth` wei that has passed the cooldown test and is counted in `s'`.
pub record IsCounted (c : Config) (now eth : ℕ) (s s' : Account) : Type 0 where
  pub cool : IsCool now s
  pub spend : IsSpend c now eth 0 (mark_large c now eth s) s'

module _ (c : Config) (now : ℕ) where
  IsRecorded-IsCounted :
      {spends : Result Spend} {s s' : Account} (eth : ℕ)
      → (r : IsRecorded c now spends s s') → r.spend ≡ record { eth = eth; usdc = 0 }
      → IsCounted c now eth s s'
  unfolding mark_large
  IsRecorded-IsCounted {s = s} {s' = s'} eth r e =
      let cools =
        subst (λ x. check_and_update_panic_cooldown c now x.eth x.usdc s ≡ ok r.cooled) e r.cools in
      let applies =
        subst (λ x. apply_spend_and_update c now x.eth x.usdc r.cooled ≡ ok s') e r.applies in
      let i = check_and_update_panic_cooldown-IsCooled c now eth 0 s cools in
      record {
        cool = i.cool;
        spend =
            subst (λ x. IsSpend c now eth 0 x s') i.written
              (apply_spend_and_update-IsSpend c now eth 0 r.cooled applies);
      }

module _ {Rest : Type 0} (chain : Chain Rest) (c : Config) (now : ℕ) where
  -- A successful `execute` is one of the entry point, to a target other than the token, with a
  -- value above 0. Before the call is made, the whole value has passed the cooldown test and the
  -- limits and is counted; then exactly the given call is made, with the counted account.
  pub executed_call_is_recorded :
      (sender target : Address) (value : ℕ) (payload : Bytes) (w : World Rest) {w' : World Rest}
      → execute chain c now sender target value payload w ≡ ok w'
      → (sender ≡ c.entry_point)
        × (target ≢ usdc_address)
        × (0 < value)
        × ((account : Account) × IsCounted c now value w.account account
            × (call_or_revert chain c.this target value payload (record w { account = account })
                ≡ ok w'))
  executed_call_is_recorded sender target value payload w h =
      let x = execute-IsExecuted chain c now sender target value payload w h in
      let (other, some_value, spends) =
        (parse_spend_amounts_iff target value payload x.recorded.spend).0 x.recorded.parsed in
      (
        x.from_entry_point,
        other,
        some_value,
        (x.account, IsRecorded-IsCounted c now value x.recorded spends, x.called),
      )

  -- A successful `executeBatch` is one of the entry point, with calls that each send some ETH to a
  -- target other than the token. Before the first call is made, the sum of their values has passed
  -- the cooldown test and the limits and is counted; then the calls are made in their order.
  pub executed_batch_is_recorded :
      (sender : Address) (calls : List Call) (w : World Rest) {w' : World Rest}
      → execute_batch chain c now sender calls w ≡ ok w'
      → (sender ≡ c.entry_point)
        × AllSends calls
        × (total_value calls < word_mod)
        × ((account : Account) × IsCounted c now (total_value calls) w.account account
            × (do_calls chain c calls (record w { account = account }) ≡ ok w'))
  executed_batch_is_recorded sender calls w h =
      let x = execute_batch-IsBatchExecuted chain c now sender calls w h in
      let (sends, fits, totals) = (add_up_iff calls x.recorded.spend).0 x.recorded.parsed in
      (
        x.from_entry_point,
        sends,
        fits,
        (x.account, IsRecorded-IsCounted c now (total_value calls) x.recorded totals, x.called),
      )
