-- ===== src/Paymaster/Funds.antt =====
-- The deposit and the stake of the paymaster: the functions of
-- lib/account-abstraction/contracts/core/BasePaymaster.sol that src/SpendingPaymaster.sol inherits.
-- They are calls of the entry point, which is a parameter with the world `W`; the owner is that of
-- OpenZeppelin's `Ownable`.
use bounded_spending_account.Prelude.{ℕ, ◌≡◌, ◌≢◌, not, ◌==◌, arith}
use bounded_spending_account.Solidity.{
  Address, ownable_unauthorized_account, Result, revert, ◌>>◌, revert_if,
}

-- The functions of the entry point that are called, each with the paymaster as its sender; the first
-- two are sent a value.
pub record EntryPoint (W : Type 0) : Type 0 where
  pub deposit_to : ℕ → Address → W → Result W
  pub add_stake : ℕ → ℕ → W → Result W
  pub withdraw_to : Address → ℕ → W → Result W
  pub unlock_stake : W → Result W
  pub withdraw_stake : Address → W → Result W
  pub balance_of : Address → W → ℕ

-- The calls of the owner, and the one of anyone.
pub data FundCall : Type 0 where
  withdraw_to_call : Address → ℕ → FundCall
  add_stake_call : ℕ → ℕ → FundCall
  unlock_stake_call : FundCall
  withdraw_stake_call : Address → FundCall

module _ {W : Type 0} (entry_point : EntryPoint W) (this owner : Address) where
  -- `onlyOwner`
  unfoldable pub only_owner : Address → Result (Unit {0})
  only_owner sender = revert_if (not (sender == owner)) (ownable_unauthorized_account sender)

  unfoldable pub deposit : ℕ → W → Result W
  deposit value w = entry_point.deposit_to value this w

  unfoldable pub withdraw_to : Address → Address → ℕ → W → Result W
  unfolding only_owner
  withdraw_to sender withdraw_address amount w = do
    only_owner sender
    entry_point.withdraw_to withdraw_address amount w

  unfoldable pub add_stake : Address → ℕ → ℕ → W → Result W
  unfolding only_owner
  add_stake sender value unstake_delay_sec w = do
    only_owner sender
    entry_point.add_stake value unstake_delay_sec w

  unfoldable pub get_paymaster_deposit : W → ℕ
  get_paymaster_deposit w = entry_point.balance_of this w

  unfoldable pub unlock_stake : Address → W → Result W
  unfolding only_owner
  unlock_stake sender w = do only_owner sender; entry_point.unlock_stake w

  unfoldable pub withdraw_stake : Address → Address → W → Result W
  unfolding only_owner
  withdraw_stake sender withdraw_address w = do
    only_owner sender
    entry_point.withdraw_stake withdraw_address w

  -- The four functions that only the owner may call, by their call.
  unfoldable pub fund_call : Address → FundCall → W → Result W
  unfolding withdraw_to add_stake unlock_stake withdraw_stake
  fund_call sender (withdraw_to_call to amount) w = withdraw_to sender to amount w
  fund_call sender (add_stake_call value delay) w = add_stake sender value delay w
  fund_call sender unlock_stake_call w = unlock_stake sender w
  fund_call sender (withdraw_stake_call to) w = withdraw_stake sender to w

  -- None of them does anything for another sender.
  pub others_cannot_move_funds :
      (sender : Address) (call : FundCall) (w : W)
      → sender ≢ owner
      → fund_call sender call w ≡ revert (ownable_unauthorized_account sender)
  unfolding fund_call withdraw_to add_stake unlock_stake withdraw_stake only_owner
  others_cannot_move_funds sender (withdraw_to_call to amount) w other = ground arith
  others_cannot_move_funds sender (add_stake_call value delay) w other = ground arith
  others_cannot_move_funds sender unlock_stake_call w other = ground arith
  others_cannot_move_funds sender (withdraw_stake_call to) w other = ground arith
