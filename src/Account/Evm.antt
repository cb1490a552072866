-- ===== src/Account/Evm.antt =====
-- What the EVM lets the contracts do that src/SpendingAccount.sol calls: they run code of their own,
-- which can write their storage, send their ETH and call the account, and cannot touch the account
-- otherwise. The code is any at all.
pub mod Isolated
pub mod Ledger
pub mod Solvent
use bounded_spending_account.Prelude.{
  ℕ, zero, suc, Bool, true, false, Option, none, some, ltb, ◌==◌, ◌||◌, if◌then◌else◌,
}
use bounded_spending_account.Solidity.{Address, Result, ok, revert}
use bounded_spending_account.Solidity.Bytes.{Bytes}
use bounded_spending_account.Account.{Config}
use bounded_spending_account.Account.World.{World, Chain, move_eth}
use bounded_spending_account.Account.Messages.{Message, handle}

-- The code that answers a call of the account, with that of the contracts that it calls in turn. A
-- call to the account has any sender. The code goes on after such a call, or after an attempt of its
-- own, whether it has succeeded or been undone.
pub data Code (Rest : Type 0) : Type 0 where
  fail : Code Rest
  return : Bytes → Code Rest
  look : (World Rest → Code Rest) → Code Rest
  write : (Rest → Rest) → Code Rest → Code Rest
  pay : Address → Address → ℕ → Code Rest → Code Rest
  attempt : Code Rest → (Option Bytes → Code Rest) → Code Rest
  call_account : Address → Message → (Bool → Code Rest) → Code Rest

module _ {Rest : Type 0} (c : Config) (now : ℕ) where
  -- The code, on a chain for the calls that the account makes further inside. No ETH is sent from
  -- the account, nor more than the sender has.
  unfoldable pub run : Chain Rest → Code Rest → World Rest → Option (World Rest × Bytes)
  run inner fail w = none
  run inner (return answer) w = some (w, answer)
  run inner (look next) w = run inner (next w) w
  run inner (write change next) w = run inner next (record w { rest = change w.rest })
  run inner (pay from to value next) w =
      let paid = run inner next (record w { eth = move_eth from to value w.eth }) in
      if from == c.this || ltb (w.eth from) value then none else paid
  run inner (attempt body next) w = elim (run inner body w) [
    | none ↦ run inner (next none) w
    | some (w', answer) ↦ run inner (next (some answer)) w'
  ]
  run inner (call_account sender message next) w = elim (handle inner c now sender message w) [
    | revert e ↦ run inner (next false) w
    | ok w' ↦ run inner (next true) w'
  ]

  -- The chain on which the account can make calls to the given depth, each answered by the code for
  -- its target, value and data. The rest of the chain is that of `base`.
  unfoldable pub evm : Chain Rest → (Address → ℕ → Bytes → Code Rest) → ℕ → Chain Rest
  unfolding run
  evm base code zero = record base { call = λ target value payload w. none }
  evm base code (suc depth) = record base {
    call = λ target value payload w. run (evm base code depth) (code target value payload) w;
  }
