-- ===== src/Account/Messages.antt =====
-- Every message that can be sent to src/SpendingAccount.sol, by anyone and at any time, and the
-- lives that a deployed account can have on a chain.
pub mod Limits
use bounded_spending_account.Prelude.{ℕ, ◌≤◌, ◌≡◌, ◌<◌, List}
use bounded_spending_account.Solidity.{Address, Revert, Result, ok, revert, ◌>>=◌}
use bounded_spending_account.Solidity.Bytes.{Bytes}
use bounded_spending_account.Solidity.Abi.{Call}
use bounded_spending_account.UserOp.{PackedUserOperation}
use bounded_spending_account.Account.{Config, Account, construct}
use bounded_spending_account.Account.World.{World, Chain, move_eth}
use bounded_spending_account.Account.Entry.{
  validate_user_op, execute, execute_batch, pay_for_gas_in_usdc, receive, add_deposit,
  request_emergency_withdraw, emergency_withdraw,
}

-- The external functions with their arguments; the numbers that are no arguments are the base fee
-- of the block and the two readings of `gasleft()`.
pub data Message : Type 0 where
  validate_user_op_call : ℕ → PackedUserOperation → ℕ → ℕ → Message
  execute_call : Address → ℕ → Bytes → Message
  execute_batch_call : List Call → Message
  pay_for_gas_in_usdc_call : ℕ → ℕ → ℕ → Message
  receive_call add_deposit_call : ℕ → Message
  request_emergency_withdraw_call : Message
  emergency_withdraw_call : Address → Message

module _ {Rest : Type 0} (chain : Chain Rest) (c : Config) where
  -- The world once the value of a payable message has moved to the account.
  abbrev paid : Address → ℕ → World Rest → World Rest
  paid sender value w = record w { eth = move_eth sender c.this value w.eth }

  -- What the account does with a message of `sender` in a block with timestamp `now`.
  unfoldable pub handle : ℕ → Address → Message → World Rest → Result (World Rest)
  handle now sender (validate_user_op_call basefee op user_op_hash missing) w = do
    (validation_data, w') ← validate_user_op chain c now basefee sender op user_op_hash missing w
    ok w'
  handle now sender (execute_call target value payload) w =
      execute chain c now sender target value payload w
  handle now sender (execute_batch_call calls) w = execute_batch chain c now sender calls w
  handle now sender (pay_for_gas_in_usdc_call gas gas_then amount) w =
      pay_for_gas_in_usdc chain c now gas gas_then sender amount w
  handle now sender (receive_call value) w = ok (receive chain c (paid sender value w))
  handle now sender (add_deposit_call value) w = add_deposit chain c value (paid sender value w)
  handle now sender request_emergency_withdraw_call w =
      request_emergency_withdraw chain c now sender w
  handle now sender (emergency_withdraw_call recipient) w =
      emergency_withdraw chain c now sender recipient w

  -- A step of the chain: a message to the account, which a revert undoes, or anything else.
  pub data Step (now : ℕ) : World Rest → World Rest → Type 0 where
    handled :
        (sender : Address) (message : Message) {w w' : World Rest}
        → handle now sender message w ≡ ok w'
        → Step now w w'
    reverted :
        (sender : Address) (message : Message) (e : Revert) {w : World Rest}
        → handle now sender message w ≡ revert e
        → Step now w w
    elsewhere : {w w' : World Rest} → w'.account ≡ w.account → Step now w w'

-- The worlds that a deployed account can live to see, with the chain as it is in the blocks of each
-- timestamp.
module _ {Rest : Type 0} (chains : ℕ → Chain Rest) (c : Config) where
  pub data Life : ℕ → World Rest → Type 0 where
    deployed : {now : ℕ} {w : World Rest} → w.account ≡ construct now → Life now w
    wait : {now : ℕ} {w : World Rest} (now' : ℕ) → now ≤ now' → Life now w → Life now' w
    step : {now : ℕ} {w w' : World Rest} → Life now w → Step (chains now) c now w w' → Life now w'
