-- ===== src/Account/Entry/Steps/Withdrawals.antt =====
-- The changes of the storage that `emergencyWithdraw` of src/SpendingAccount.sol makes.
use bounded_spending_account.Prelude.{
  ℕ, ◌≡◌, ◌⊎◌, ◌∙◌, refl, [], Option, none, some, subst, sym, ap, ◌==◌, Bool-cases, inl, inr,
}
use bounded_spending_account.Solidity.{
  Address, empty, call_failed, Result, ok, revert, ◌>>=◌, ◌>>◌, revert_if,
}
use bounded_spending_account.Solidity.Laws.{>>=-eq-ok, revert_if-eq-ok, ok-injective}
use bounded_spending_account.Solidity.Bytes.{Bytes}
use bounded_spending_account.Account.{Config, usdc_address}
use bounded_spending_account.Account.World.{World, Chain, low_level_call}
use bounded_spending_account.Account.Entry.{
  withdraw_eth, transfer_data, transfer_usdc, withdraw_usdc, emergency_withdraw, decode_bool,
}
use bounded_spending_account.Account.Entry.Access.{clear_request, emergency_withdraw-IsWithdrawn}
use bounded_spending_account.Account.History.{cleared, withdrawn, Trace, done, more, Trace-trans}
use bounded_spending_account.Account.Entry.Steps.{IsIsolated, called, low_level_call-Trace}

module _ {Rest : Type 0} (chain : Chain Rest) (c : Config) where
  -- The call that a successful transfer of USDC makes.
  pub transfer_usdc-called :
      (recipient : Address) (usdc_amount : ℕ) (w : World Rest) {w' : World Rest}
      → transfer_usdc chain c recipient usdc_amount w ≡ ok w'
      → (r : Bytes) × (low_level_call chain c.this usdc_address 0
            (transfer_data recipient usdc_amount)
            w
          ≡ some (w', r))
  unfolding transfer_usdc
  transfer_usdc-called recipient usdc_amount w h =
      go (low_level_call chain c.this usdc_address 0 (transfer_data recipient usdc_amount) w) refl h
    where
      go :
          (o : Option (World Rest × Bytes)) {w' : World Rest}
          → low_level_call chain c.this usdc_address 0 (transfer_data recipient usdc_amount) w ≡ o
          → (elim o as (λ x. Result (World Rest)) [
            | none ↦ revert call_failed
            | some (v, returned) ↦ do
              done_word ← decode_bool returned
              revert_if (done_word == 0) empty
              ok v
          ])
            ≡ ok w'
          → (r : Bytes) × (low_level_call chain c.this usdc_address 0
                (transfer_data recipient usdc_amount)
                w
              ≡ some (w', r))
      go none e k = absurd (cc k)
      go (some (v, r)) e k =
          let (word, _, k1) = >>=-eq-ok (decode_bool r) _ k in
          let k2 = (revert_if-eq-ok (word == 0) empty (ok v) k1).1 in
          (r, e ∙ ap (λ x. some (x, r)) (ok-injective k2))

  -- The withdrawal of USDC changes nothing, or is a transfer of the whole balance.
  pub withdraw_usdc-transfers :
      (recipient : Address) (w : World Rest) {amount : ℕ} {w' : World Rest}
      → withdraw_usdc chain c recipient w ≡ ok (amount, w')
      → (w' ≡ w) ⊎ (transfer_usdc chain c recipient (chain.usdc_balance c.this w) w ≡ ok w')
  unfolding withdraw_usdc
  withdraw_usdc-transfers recipient w {amount} {w'} h =
      let same = λ (e : ok (0, w) ≡ ok (amount, w')). sym (ap (λ x. x.1) (ok-injective e)) in
      elim (Bool-cases (chain.code_length usdc_address w == 0)) [
        | inl e ↦ inl (same (rw e at h))
        | inr e ↦ elim (Bool-cases (chain.usdc_balance c.this w == 0)) [
          | inl z ↦ inl (same (rw z at (rw e at h)))
          | inr z ↦
              let (v, transfers, k) =
                >>=-eq-ok (transfer_usdc chain c recipient (chain.usdc_balance c.this w) w) _
                  (rw z at (rw e at h)) in
              inr (transfers ∙ ap (λ x. ok x.1) (ok-injective k))
        ]
      ]

module _ {Rest : Type 0} (chain : Chain Rest) (c : Config) (now : ℕ)
    (iso : IsIsolated chain c now) where
  withdraw_eth-Trace :
      (recipient : Address) (eth_amount : ℕ) (w : World Rest) {w' : World Rest}
      → withdraw_eth chain c recipient eth_amount w ≡ ok w'
      → Trace c now w.account w'.account
  unfolding withdraw_eth
  withdraw_eth-Trace recipient eth_amount w h = elim (Bool-cases (eth_amount == 0)) [
    | inl e ↦ subst (λ x. Trace c now w.account x.account) (ok-injective (rw e at h)) done
    | inr e ↦
        let (r, k) =
          called empty (low_level_call chain c.this recipient eth_amount [] w) (rw e at h) in
        low_level_call-Trace chain c now iso recipient eth_amount [] w k
  ]

  transfer_usdc-Trace :
      (recipient : Address) (usdc_amount : ℕ) (w : World Rest) {w' : World Rest}
      → transfer_usdc chain c recipient usdc_amount w ≡ ok w'
      → Trace c now w.account w'.account
  transfer_usdc-Trace recipient usdc_amount w h =
      let (r, e) = transfer_usdc-called chain c recipient usdc_amount w h in
      low_level_call-Trace chain c now iso usdc_address 0 (transfer_data recipient usdc_amount) w e

  withdraw_usdc-Trace :
      (recipient : Address) (w : World Rest) {amount : ℕ} {w' : World Rest}
      → withdraw_usdc chain c recipient w ≡ ok (amount, w')
      → Trace c now w.account w'.account
  withdraw_usdc-Trace recipient w h = elim (withdraw_usdc-transfers chain c recipient w h) [
    | inl same ↦ subst (λ x. Trace c now w.account x.account) (sym same) done
    | inr transfers ↦ transfer_usdc-Trace recipient (chain.usdc_balance c.this w) w transfers
  ]

  pub emergency_withdraw-Trace :
      (sender recipient : Address) (w : World Rest) {w' : World Rest}
      → emergency_withdraw chain c now sender recipient w ≡ ok w'
      → Trace c now w.account w'.account
  emergency_withdraw-Trace sender recipient w h =
      let x = emergency_withdraw-IsWithdrawn chain c now sender recipient w h in
      let start : Trace c now w.account (clear_request w).account = more done (cleared w.account) in
      let eth =
        withdraw_eth-Trace recipient ((clear_request w).eth c.this) (clear_request w)
          x.withdraws_eth in
      let usdc = withdraw_usdc-Trace recipient x.after_eth x.withdraws_usdc in
      subst (λ t. Trace c now w.account t.account) (sym x.world)
        (more (Trace-trans start (Trace-trans eth usdc))
          (withdrawn recipient ((clear_request w).eth c.this) x.usdc_amount x.after_usdc.account))
