-- ===== src/Account/World.antt =====
-- The chain around src/SpendingAccount.sol: balances, and the contracts that the account calls. The
-- code of those is not part of the repository's contracts: it is the parameter `Chain`.
use bounded_spending_account.Prelude.{ℕ, ◌+◌, ◌-◌, Option, none, some, ltb, ◌==◌, if◌then◌else◌}
use bounded_spending_account.Solidity.{Address, call_failed, Result, ok, revert}
use bounded_spending_account.Solidity.Bytes.{Bytes}
use bounded_spending_account.Account.{Account}

-- The account, the ETH balances, and the storage of all other contracts, of any type `Rest`.
pub record World (Rest : Type 0) : Type 0 where
  pub account : Account
  pub eth : Address → ℕ
  pub rest : Rest

-- What the account calls. A call made by the account gives its target, its value and its data, and
-- runs after the value has moved; it fails, or gives the world that it leaves and its return data.
-- `recover` is `ECDSA.recover`, `none` where that reverts.
pub record Chain (Rest : Type 0) : Type 0 where
  pub call : Address → ℕ → Bytes → World Rest → Option (World Rest × Bytes)
  pub code_length : Address → World Rest → ℕ
  pub usdc_balance : Address → World Rest → ℕ
  pub deposit_balance : Address → World Rest → ℕ
  pub recover : ℕ → Bytes → Option Address

-- The balances after `value` wei have moved.
unfoldable pub move_eth : Address → Address → ℕ → (Address → ℕ) → Address → ℕ
move_eth from to value eth =
    let debited = λ (a : Address). if a == from then eth a - value else eth a in
    λ a. if a == to then debited a + value else debited a

module _ {Rest : Type 0} (chain : Chain Rest) (this : Address) where
  -- A low-level call by the account: it fails if the balance is too low or the callee fails.
  unfoldable pub low_level_call : Address → ℕ → Bytes → World Rest → Option (World Rest × Bytes)
  low_level_call target value payload w =
      if ltb (w.eth this) value
      then none
      else chain.call target value payload (record w { eth = move_eth this target value w.eth })

  -- `Exec.call` followed by `if (!ok) Exec.revertWithReturnData()`
  unfoldable pub call_or_revert : Address → ℕ → Bytes → World Rest → Result (World Rest)
  call_or_revert target value payload w = elim (low_level_call target value payload w) [
    | none ↦ revert call_failed
    | some (w', _) ↦ ok w'
  ]
