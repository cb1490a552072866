-- ===== src/Account/Evm/Isolated.antt =====
-- The limits of src/SpendingAccount.sol on the EVM, whatever the code of the contracts that it calls.
use bounded_spending_account.Prelude.{
  ℕ, zero, suc, ◌+◌, ◌≤◌, ◌≡◌, ◌≢◌, refl, ap, sym, ◌∙◌, subst, ◌⊎◌, none, some, Bool, true, false,
  ltb, ◌||◌, ◌==◌, Bool-cases, Option-cases, inl, inr,
}
use bounded_spending_account.Solidity.{Address, Result, Revert, ok, revert}
use bounded_spending_account.Solidity.Bytes.{Bytes}
use bounded_spending_account.LimitPolicy.{daily_window, monthly_window}
use bounded_spending_account.Account.{Config}
use bounded_spending_account.Account.World.{World, Chain}
use bounded_spending_account.Account.Entry.Steps.{IsIsolated}
use bounded_spending_account.Account.History.{Trace, done, Trace-trans}
use bounded_spending_account.Account.History.Usdc.{usdc_total}
use bounded_spending_account.Account.History.Eth.{eth_between}
use bounded_spending_account.Account.History.Requests.{IsRequested}
use bounded_spending_account.Account.Messages.{Message, handle, Life}
use bounded_spending_account.Account.Messages.Limits.{
  handle-Trace, Life-eth_within_twice_the_limits, Life-usdc_within_the_limits,
  Life-pending_was-IsRequested,
}
use bounded_spending_account.Account.Evm.{
  Code, fail, return, look, write, pay, attempt, call_account, run, evm,
}

-- To split on a computed result and keep the equation.
pub Result-cases :
    {A : Type 0} (r : Result A) → ((e : Revert) × (r ≡ revert e)) ⊎ ((a : A) × (r ≡ ok a))
Result-cases (revert e) = inl (e, refl)
Result-cases (ok a) = inr (a, refl)

module _ {Rest : Type 0} (c : Config) (now : ℕ) where
  -- How code goes on after a message.
  pub run-reverted :
      (inner : Chain Rest) (sender : Address) (message : Message) (next : Bool → Code Rest)
      (w : World Rest) {e : Revert}
      → handle inner c now sender message w ≡ revert e
      → run c now inner (call_account sender message next) w ≡ run c now inner (next false) w
  unfolding run
  run-reverted inner sender message next w h = rw (h, run) refl

  pub run-handled :
      (inner : Chain Rest) (sender : Address) (message : Message) (next : Bool → Code Rest)
      (w : World Rest) {w' : World Rest}
      → handle inner c now sender message w ≡ ok w'
      → run c now inner (call_account sender message next) w ≡ run c now inner (next true) w'
  unfolding run
  run-handled inner sender message next w h = rw (h, run) refl

  -- Code changes the account's storage only by messages to the account.
  run-Trace :
      (inner : Chain Rest)
      → IsIsolated inner c now
      → (code : Code Rest) (w : World Rest) {w' : World Rest} {answer : Bytes}
      → run c now inner code w ≡ some (w', answer)
      → Trace c now w.account w'.account
  unfolding run
  run-Trace inner iso fail w h = cc
  run-Trace inner iso (return answer) w {w'} h =
      subst (λ x. Trace c now w.account x.account)
        (ap (λ o. elim o [ none ↦ w | some (v, _) ↦ v ]) h) done
  run-Trace inner iso (look next) w h = run-Trace inner iso (next w) w h
  run-Trace inner iso (write change next) w h = run-Trace inner iso next _ h
  run-Trace inner iso (pay from to value next) w h =
      elim (Bool-cases (from == c.this || ltb (w.eth from) value)) [
        | inl e ↦ absurd (cc (rw e at h))
        | inr e ↦ run-Trace inner iso next _ (rw e at h)
      ]
  run-Trace inner iso (attempt body next) w h = elim (Option-cases (run c now inner body w)) [
    | inl e ↦ run-Trace inner iso (next none) w (rw e at h)
    | inr ((v, answer), e) ↦
        Trace-trans (run-Trace inner iso body w e)
          (run-Trace inner iso (next (some answer)) v (rw e at h))
  ]
  run-Trace inner iso (call_account sender message next) w h =
      elim (Result-cases (handle inner c now sender message w)) [
        | inl (reason, e) ↦
            run-Trace inner iso (next false) w
              (sym (run-reverted inner sender message next w e) ∙ h)
        | inr (v, e) ↦ Trace-trans (handle-Trace inner c iso sender message w e) (
            run-Trace inner iso (next true) v (sym (run-handled inner sender message next w e) ∙ h))
      ]

  -- So the storage is isolated on every chain that is answered by code, at every depth.
  evm-IsIsolated :
      (base : Chain Rest) (code : Address → ℕ → Bytes → Code Rest) (depth : ℕ)
      → IsIsolated (evm c now base code depth) c now
  unfolding evm
  evm-IsIsolated base code zero = record { keeps = λ target value payload w h. absurd (cc h) }
  evm-IsIsolated base code (suc depth) = record {
    keeps = λ target value payload w h.
        run-Trace (evm c now base code depth) (evm-IsIsolated base code depth)
          (code target value payload) w h;
  }

-- The chains of the EVM, with code for each block that may depend on its timestamp.
abbrev pub evm_at :
    {Rest : Type 0}
    → Config
    → Chain Rest
    → (ℕ → Address → ℕ → Bytes → Code Rest)
    → ℕ
    → ℕ
    → Chain Rest
evm_at c base code depth now = evm c now base (code now) depth

module _ {Rest : Type 0} (c : Config) (base : Chain Rest)
    (code : ℕ → Address → ℕ → Bytes → Code Rest) (depth : ℕ) where
  -- Whatever code the account's calls run, also where it calls the account again to any depth, and
  -- whatever messages anyone has sent to a deployed account, at whatever times: in any 24 hours the
  -- ETH recorded as spent is at most twice the daily limit, and in any 30 days at most twice the
  -- monthly limit.
  pub any_window-eth_within_twice_the_limits :
      {now : ℕ} {w : World Rest}
      → Life (evm_at c base code depth) c now w
      → (lo : ℕ)
      → (eth_between lo (lo + daily_window) w.account.logs ≤ c.daily_eth_limit + c.daily_eth_limit)
        × (eth_between lo (lo + monthly_window) w.account.logs
            ≤ c.monthly_eth_limit + c.monthly_eth_limit)
  any_window-eth_within_twice_the_limits l =
      Life-eth_within_twice_the_limits (evm_at c base code depth) c
        (λ now. evm-IsIsolated c now base (code now) depth) l

  -- Whatever code the account's calls run, also where it calls the account again to any depth, and
  -- whatever messages anyone has sent to a deployed account, all USDC that it has ever recorded as
  -- spent is within the daily limit, and within the monthly limit.
  pub all_usdc_within_the_limits :
      {now : ℕ} {w : World Rest}
      → Life (evm_at c base code depth) c now w
      → (usdc_total w.account.logs ≤ c.daily_usdc_limit)
        × (usdc_total w.account.logs ≤ c.monthly_usdc_limit)
  all_usdc_within_the_limits l =
      Life-usdc_within_the_limits (evm_at c base code depth) c
        (λ now. evm-IsIsolated c now base (code now) depth) l

  -- Whatever code the account's calls run, also where it calls the account again to any depth, and
  -- whatever messages anyone has sent to a deployed account, the time of a pending emergency
  -- withdrawal is that of a request in the logs, and has passed.
  pub pending_withdrawal_was-IsRequested :
      {now : ℕ} {w : World Rest}
      → Life (evm_at c base code depth) c now w
      → w.account.emergency_withdraw_request_time ≢ 0
      → (w.account.emergency_withdraw_request_time ≤ now)
        × IsRequested w.account.emergency_withdraw_request_time w.account.logs
  pending_withdrawal_was-IsRequested l =
      Life-pending_was-IsRequested (evm_at c base code depth) c
        (λ now. evm-IsIsolated c now base (code now) depth) l
