-- ===== src/Account/Entry.antt =====
-- The external functions of src/SpendingAccount.sol, each for the contract's immutables `c`, in a
-- block with timestamp `now`, called by `sender`. A revert gives no world: the chain drops what
-- the call has written.
pub mod Access
pub mod Steps
pub mod Guards
pub mod Spends
use bounded_spending_account.Prelude.{
  ℕ, ◌+◌, ◌-◌, ◌≡◌, List, [], ◌∷◌, ◌++◌, Option, none, some, not, length, take, ltb, ◌==◌,
  if◌then◌else◌,
}
use bounded_spending_account.Solidity.{
  Address, not_from_entry_point, not_from_paymaster, not_vault_owner, withdraw_timelock_not_met,
  no_withdraw_requested, insufficient_gas_for_usdc_transfer, bad_encoding, empty, call_failed,
  invalid_signature, Result, ok, revert, ◌>>=◌, ◌>>◌, revert_if, checked_add,
}
use bounded_spending_account.Solidity.Bytes.{Bytes, from_be, to_be}
use bounded_spending_account.Solidity.Abi.{Call}
use bounded_spending_account.UserOp.{PackedUserOperation}
use bounded_spending_account.UserOp.Cost.{get_usdc_gas_cost_if_paymaster}
use bounded_spending_account.Account.{
  Config, Account, usdc_address, withdraw_timelock, emit, emergency_withdraw_requested,
  emergency_withdraw_executed,
}
use bounded_spending_account.Account.Spending.{
  check_and_update_panic_cooldown, validate_preflight_limits, apply_spend_and_update,
  apply_usdc_spend,
}
use bounded_spending_account.Account.Parsing.{
  Spend, parse_spend_amounts, parse_spend_amounts_from_call_data, add_up, nothing,
  transfer_selector,
}
use bounded_spending_account.Account.World.{World, Chain, low_level_call, call_or_revert}

-- `SIG_VALIDATION_SUCCESS` and `SIG_VALIDATION_FAILED` of
-- lib/account-abstraction/contracts/core/Helpers.sol
abbrev pub sig_validation_success : ℕ
sig_validation_success = 0

abbrev pub sig_validation_failed : ℕ
sig_validation_failed = 1

-- `MIN_GAS_FOR_USDC_TRANSFER`
abbrev pub min_gas_for_usdc_transfer : ℕ
min_gas_for_usdc_transfer = 60000

-- The data of a call `transfer(to, amount)`, and of `depositTo(to)`.
unfoldable pub transfer_data : Address → ℕ → Bytes
transfer_data to amount = to_be 4 transfer_selector ++ to_be 32 to ++ to_be 32 amount

unfoldable pub deposit_to_data : Address → Bytes
deposit_to_data to = to_be 4 0xb760faf9 ++ to_be 32 to

-- The boolean that a high-level call reads from its return data.
unfoldable pub decode_bool : Bytes → Result ℕ
decode_bool bs = do
  revert_if (ltb (length bs) 32) bad_encoding
  let word = from_be (take 32 bs)
  revert_if (ltb 1 word) bad_encoding
  ok word

module _ {Rest : Type 0} (chain : Chain Rest) (c : Config) where
  -- `_validateSignature`
  unfoldable pub validate_signature : PackedUserOperation → ℕ → Result ℕ
  validate_signature op user_op_hash = elim (chain.recover user_op_hash op.signature) [
    | none ↦ revert invalid_signature
    | some recovered ↦
        ok (if recovered == c.vault_owner then sig_validation_success else sig_validation_failed)
  ]

  -- `_payPrefund`: a failure of the call is ignored
  unfoldable pub pay_prefund : Address → ℕ → World Rest → World Rest
  pay_prefund sender missing w =
      if missing == 0
      then w
      else elim (low_level_call chain c.this sender missing [] w) [ none ↦ w | some (w', _) ↦ w' ]

  -- `validateUserOp`, in a block with the given base fee
  unfoldable pub validate_user_op :
      ℕ → ℕ → Address → PackedUserOperation → ℕ → ℕ → World Rest → Result (ℕ × World Rest)
  validate_user_op now basefee sender op user_op_hash missing w = do
    revert_if (not (sender == c.entry_point)) not_from_entry_point
    validation_data ← validate_signature op user_op_hash
    spend ← parse_spend_amounts_from_call_data op.call_data
    gas_cost ← get_usdc_gas_cost_if_paymaster c.paymaster c.usdc_per_eth basefee op
    usdc ← checked_add spend.usdc gas_cost
    account ← validate_preflight_limits c now spend.eth usdc w.account
    ok (validation_data, pay_prefund sender missing (record w { account = account }))

  -- `_validateAndRecordSpend`
  unfoldable pub validate_and_record_spend : ℕ → Address → ℕ → Bytes → Account → Result Account
  validate_and_record_spend now target value payload s = do
    spend ← parse_spend_amounts target value payload
    cooled ← check_and_update_panic_cooldown c now spend.eth spend.usdc s
    apply_spend_and_update c now spend.eth spend.usdc cooled

  unfoldable pub execute : ℕ → Address → Address → ℕ → Bytes → World Rest → Result (World Rest)
  execute now sender target value payload w = do
    revert_if (not (sender == c.entry_point)) not_from_entry_point
    account ← validate_and_record_spend now target value payload w.account
    call_or_revert chain c.this target value payload (record w { account = account })

  -- The second loop of `executeBatch`.
  unfoldable pub do_calls : List Call → World Rest → Result (World Rest)
  do_calls [] w = ok w
  do_calls (call ∷ calls) w = do
    w' ← call_or_revert chain c.this call.target call.value call.payload w
    do_calls calls w'

  unfoldable pub execute_batch : ℕ → Address → List Call → World Rest → Result (World Rest)
  execute_batch now sender calls w = do
    revert_if (not (sender == c.entry_point)) not_from_entry_point
    total ← add_up calls nothing
    cooled ← check_and_update_panic_cooldown c now total.eth total.usdc w.account
    account ← apply_spend_and_update c now total.eth total.usdc cooled
    do_calls calls (record w { account = account })

  -- `payForGasInUsdc`; `gas` and `gas_then` are the two readings of `gasleft()`
  unfoldable pub pay_for_gas_in_usdc : ℕ → ℕ → ℕ → Address → ℕ → World Rest → Result (World Rest)
  pay_for_gas_in_usdc now gas gas_then sender amount w = do
    revert_if (not (sender == c.paymaster)) not_from_paymaster
    revert_if (ltb gas min_gas_for_usdc_transfer)
        (insufficient_gas_for_usdc_transfer gas_then min_gas_for_usdc_transfer)
    account ← apply_usdc_spend c now amount w.account
    call_or_revert chain c.this usdc_address 0 (transfer_data c.paymaster amount)
        (record w { account = account })

  -- `receive`: the chain has moved `value` wei from the sender already
  unfoldable pub receive : World Rest → World Rest
  receive w = w

  unfoldable pub get_deposit : World Rest → ℕ
  get_deposit w = chain.deposit_balance c.this w

  -- `addDeposit`, in a world that has the `value` wei of the message already
  unfoldable pub add_deposit : ℕ → World Rest → Result (World Rest)
  add_deposit value w = do
    revert_if (chain.code_length c.entry_point w == 0) empty
    call_or_revert chain c.this c.entry_point value (deposit_to_data c.this) w

  unfoldable pub request_emergency_withdraw : ℕ → Address → World Rest → Result (World Rest)
  request_emergency_withdraw now sender w = do
    revert_if (not (sender == c.vault_owner)) not_vault_owner
    let account = record (w.account) { emergency_withdraw_request_time = now }
    ok (record w { account = emit now emergency_withdraw_requested account })

  -- The part of `emergencyWithdraw` under `if (ethAmount > 0)`.
  unfoldable pub withdraw_eth : Address → ℕ → World Rest → Result (World Rest)
  withdraw_eth recipient eth_amount w =
      if eth_amount == 0
      then ok w
      else elim (low_level_call chain c.this recipient eth_amount [] w) [
        | none ↦ revert empty
        | some (w', _) ↦ ok w'
      ]

  -- `IERC20(USDC).transfer(recipient, usdcAmount)` and `if (!ok) revert()`
  unfoldable pub transfer_usdc : Address → ℕ → World Rest → Result (World Rest)
  transfer_usdc recipient usdc_amount w =
      elim (low_level_call chain c.this usdc_address 0 (transfer_data recipient usdc_amount) w) [
        | none ↦ revert call_failed
        | some (w', returned) ↦ do done ← decode_bool returned; revert_if (done == 0) empty; ok w'
      ]

  -- The part of `emergencyWithdraw` under `if (USDC.code.length > 0)`, with the amount that it
  -- finds.
  unfoldable pub withdraw_usdc : Address → World Rest → Result (ℕ × World Rest)
  withdraw_usdc recipient w =
      let usdc_amount = chain.usdc_balance c.this w in
      if chain.code_length usdc_address w == 0
      then ok (0, w)
      else if usdc_amount == 0
      then ok (0, w)
      else (do w' ← transfer_usdc recipient usdc_amount w; ok (usdc_amount, w'))

  unfoldable pub emergency_withdraw : ℕ → Address → Address → World Rest → Result (World Rest)
  emergency_withdraw now sender recipient w = do
    let requested = w.account.emergency_withdraw_request_time
    revert_if (not (sender == c.vault_owner)) not_vault_owner
    revert_if (requested == 0) no_withdraw_requested
    unlocked ← checked_add requested withdraw_timelock
    revert_if (ltb now unlocked) withdraw_timelock_not_met
    let cleared = record w { account = record (w.account) { emergency_withdraw_request_time = 0 } }
    let eth_amount = cleared.eth c.this
    w1 ← withdraw_eth recipient eth_amount cleared
    (usdc_amount, w2) ← withdraw_usdc recipient w1
    ok (record w2 {
      account = emit now (emergency_withdraw_executed recipient eth_amount usdc_amount) w2.account;
    })
