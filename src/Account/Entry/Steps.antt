-- ===== src/Account/Entry/Steps.antt =====
-- The external functions of src/SpendingAccount.sol change the account's storage only by the
-- changes of `Change`, also where the contracts that they call come back to the account.
pub mod Withdrawals
use bounded_spending_account.Prelude.{
  ℕ, ◌+◌, ◌≡◌, refl, List, [], ◌∷◌, Option, none, some, subst, sym, ap, ltb, ◌==◌, not, Bool-cases,
  inl, inr,
}
use bounded_spending_account.Solidity.{
  Address, Revert, empty, call_failed, not_from_paymaster, insufficient_gas_for_usdc_transfer,
  Result, ok, revert, ◌>>=◌, ◌>>◌, revert_if,
}
use bounded_spending_account.Solidity.Laws.{>>=-eq-ok, revert_if-eq-ok, ok-injective}
use bounded_spending_account.Solidity.Bytes.{Bytes}
use bounded_spending_account.Solidity.Abi.{Call}
use bounded_spending_account.UserOp.{PackedUserOperation}
use bounded_spending_account.Account.{Config, Account, usdc_address}
use bounded_spending_account.Account.Parsing.{Spend}
use bounded_spending_account.Account.Spending.{apply_usdc_spend}
use bounded_spending_account.Account.World.{World, Chain, low_level_call, call_or_revert}
use bounded_spending_account.Account.Entry.{
  pay_prefund, validate_user_op, execute, do_calls, execute_batch, pay_for_gas_in_usdc, add_deposit,
  request_emergency_withdraw, withdraw_eth, min_gas_for_usdc_transfer, transfer_data, transfer_usdc,
  withdraw_usdc, emergency_withdraw, decode_bool,
}
use bounded_spending_account.Account.Entry.Access.{
  validate_user_op-IsValidated, IsRecorded, execute-IsExecuted, execute_batch-IsBatchExecuted,
  clear_request, emergency_withdraw-IsWithdrawn,
}
use bounded_spending_account.Account.History.{
  Change, validated, spent, charged, requested, cleared, withdrawn, Trace, done, more, Trace-trans,
}

-- The storage of the account belongs to its own code: a call of another contract leaves it as it
-- was, or changes it by calls back into the account, in the same block.
pub record IsIsolated {Rest : Type 0} (chain : Chain Rest) (c : Config) (now : ℕ) : Type 0 where
  pub keeps :
      (target : Address) (value : ℕ) (payload : Bytes) (w : World Rest) {w' : World Rest}
      {r : Bytes}
      → chain.call target value payload w ≡ some (w', r)
      → Trace c now w.account w'.account

-- A call that does not revert the caller has succeeded.
pub called {ℓ} :
    {W : Type ℓ} (e : Revert) (o : Option (W × Bytes)) {w : W}
    → (elim o as (λ x. Result W) [ none ↦ revert e | some (v, _) ↦ ok v ]) ≡ ok w
    → (r : Bytes) × (o ≡ some (w, r))
called e none h = absurd (cc h)
called e (some (v, r)) h = (r, ap (λ x. some (x, r)) (ok-injective h))

module _ {Rest : Type 0} (chain : Chain Rest) (c : Config) (now : ℕ)
    (iso : IsIsolated chain c now) where
  pub low_level_call-Trace :
      (target : Address) (value : ℕ) (payload : Bytes) (w : World Rest) {w' : World Rest}
      {r : Bytes}
      → low_level_call chain c.this target value payload w ≡ some (w', r)
      → Trace c now w.account w'.account
  unfolding low_level_call
  low_level_call-Trace target value payload w h = elim (Bool-cases (ltb (w.eth c.this) value)) [
    | inl e ↦ absurd (cc (rw e at h))
    | inr e ↦ iso.keeps target value payload _ (rw e at h)
  ]

  call_or_revert-Trace :
      (target : Address) (value : ℕ) (payload : Bytes) (w : World Rest) {w' : World Rest}
      → call_or_revert chain c.this target value payload w ≡ ok w'
      → Trace c now w.account w'.account
  unfolding call_or_revert
  call_or_revert-Trace target value payload w h =
      let (r, e) = called call_failed (low_level_call chain c.this target value payload w) h in
      low_level_call-Trace target value payload w e

  -- The trace of one change, and of what follows it.
  after : {s t u : Account} → Change c now s t → Trace c now t u → Trace c now s u
  after ch p = Trace-trans (more done ch) p

  pay_prefund-Trace :
      (sender : Address) (missing : ℕ) (w : World Rest)
      → Trace c now w.account (pay_prefund chain c sender missing w).account
  unfolding pay_prefund
  pay_prefund-Trace sender missing w = elim (Bool-cases (missing == 0)) [
    | inl e ↦ rw e done
    | inr e ↦ rw e (go (low_level_call chain c.this sender missing [] w) refl)
  ]
    where
      go :
          (o : Option (World Rest × Bytes))
          → low_level_call chain c.this sender missing [] w ≡ o
          → Trace c now w.account
              (elim o as (λ x. World Rest) [ none ↦ w | some (v, _) ↦ v ]).account
      go none e = done
      go (some (v, r)) e = low_level_call-Trace sender missing [] w e

  -- A validation is one change, and what the payment of the prefund brings.
  pub validate_user_op-Trace :
      (basefee : ℕ) (sender : Address) (op : PackedUserOperation) (user_op_hash missing : ℕ)
      (w : World Rest) {validation_data : ℕ} {w' : World Rest}
      → validate_user_op chain c now basefee sender op user_op_hash missing w
        ≡ ok (validation_data, w')
      → Trace c now w.account w'.account
  validate_user_op-Trace basefee sender op user_op_hash missing w h =
      let v = validate_user_op-IsValidated chain c now basefee sender op user_op_hash missing w h in
      subst (λ x. Trace c now w.account x.account) (sym v.world)
        (after (validated v.spend.eth (v.spend.usdc + v.gas_cost) v.validates)
          (pay_prefund-Trace sender missing (record w { account = v.account })))

  recorded-Change :
      {spends : Result Spend} {s s' : Account} → IsRecorded c now spends s s' → Change c now s s'
  recorded-Change r = spent r.spend.eth r.spend.usdc r.cools r.applies

  pub execute-Trace :
      (sender target : Address) (value : ℕ) (payload : Bytes) (w : World Rest) {w' : World Rest}
      → execute chain c now sender target value payload w ≡ ok w'
      → Trace c now w.account w'.account
  execute-Trace sender target value payload w h =
      let x = execute-IsExecuted chain c now sender target value payload w h in
      after (recorded-Change x.recorded)
        (call_or_revert-Trace target value payload (record w { account = x.account }) x.called)

  do_calls-Trace :
      (calls : List Call) (w : World Rest) {w' : World Rest}
      → do_calls chain c calls w ≡ ok w'
      → Trace c now w.account w'.account
  unfolding do_calls
  do_calls-Trace [] w h = subst (λ x. Trace c now w.account x.account) (ok-injective h) done
  do_calls-Trace (call ∷ calls) w h =
      let first = call_or_revert chain c.this call.target call.value call.payload w in
      let (v, called_first, h1) = >>=-eq-ok first _ h in
      Trace-trans (call_or_revert-Trace call.target call.value call.payload w called_first)
        (do_calls-Trace calls v h1)

  pub execute_batch-Trace :
      (sender : Address) (calls : List Call) (w : World Rest) {w' : World Rest}
      → execute_batch chain c now sender calls w ≡ ok w'
      → Trace c now w.account w'.account
  execute_batch-Trace sender calls w h =
      let x = execute_batch-IsBatchExecuted chain c now sender calls w h in
      after (recorded-Change x.recorded)
        (do_calls-Trace calls (record w { account = x.account }) x.called)

  pub pay_for_gas_in_usdc-Trace :
      (gas gas_then : ℕ) (sender : Address) (amount : ℕ) (w : World Rest) {w' : World Rest}
      → pay_for_gas_in_usdc chain c now gas gas_then sender amount w ≡ ok w'
      → Trace c now w.account w'.account
  unfolding pay_for_gas_in_usdc
  pay_for_gas_in_usdc-Trace gas gas_then sender amount w h =
      let h1 = (revert_if-eq-ok (not (sender == c.paymaster)) not_from_paymaster _ h).1 in
      let short = insufficient_gas_for_usdc_transfer gas_then min_gas_for_usdc_transfer in
      let h2 = (revert_if-eq-ok (ltb gas min_gas_for_usdc_transfer) short _ h1).1 in
      let (account, applies, h3) = >>=-eq-ok (apply_usdc_spend c now amount w.account) _ h2 in
      after (charged amount applies) (
        call_or_revert-Trace usdc_address 0 (transfer_data c.paymaster amount)
          (record w { account = account }) h3)

  pub add_deposit-Trace :
      (value : ℕ) (w : World Rest) {w' : World Rest}
      → add_deposit chain c value w ≡ ok w'
      → Trace c now w.account w'.account
  unfolding add_deposit
  add_deposit-Trace value w h =
      call_or_revert-Trace c.entry_point value _ w (revert_if-eq-ok _ _ _ h).1

  pub request_emergency_withdraw-Trace :
      (sender : Address) (w : World Rest) {w' : World Rest}
      → request_emergency_withdraw chain c now sender w ≡ ok w'
      → Trace c now w.account w'.account
  unfolding request_emergency_withdraw
  request_emergency_withdraw-Trace sender w h =
      subst (λ x. Trace c now w.account x.account) (ok-injective (revert_if-eq-ok _ _ _ h).1)
        (more done (requested w.account))
