-- ===== src/Tests/Reentry.antt =====
-- Tests of src/SpendingAccount.sol with called code that calls the account again.
use bounded_spending_account.Prelude.{ℕ, ◌+◌, ◌*◌, ◌^◌, ◌≤◌, ◌≡◌, refl, arith, [], ◌∷◌}
use bounded_spending_account.Solidity.{Address, ok, checked_add, checked_mul}
use bounded_spending_account.Solidity.Bytes.{Bytes}
use bounded_spending_account.LimitPolicy.{
  daily_window, monthly_window, maybe_reset_windows, validate_eth_spend,
}
use bounded_spending_account.Account.{construct, emergency_withdraw_requested}
use bounded_spending_account.Account.Spending.{
  get_usd_value, check_cooldown, check_and_update_panic_cooldown, record_eth_spend,
  record_usdc_spend, apply_spend_and_update,
}
use bounded_spending_account.Account.Parsing.{parse_spend_amounts}
use bounded_spending_account.Account.World.{World, move_eth, low_level_call, call_or_revert}
use bounded_spending_account.Account.Entry.{
  validate_and_record_spend, execute, receive, request_emergency_withdraw,
}
use bounded_spending_account.Account.History.Usdc.{usdc_total}
use bounded_spending_account.Account.History.Eth.{eth_between}
use bounded_spending_account.Account.History.Requests.{IsRequested}
use bounded_spending_account.Account.Messages.{
  handle, handled, Life, deployed, wait, step, execute_call, receive_call,
  request_emergency_withdraw_call,
}
use bounded_spending_account.Account.Evm.{Code, return, pay, call_account, run, evm}
use bounded_spending_account.Account.Evm.Isolated.{
  evm_at, any_window-eth_within_twice_the_limits, all_usdc_within_the_limits,
  pending_withdrawal_was-IsRequested,
}
use bounded_spending_account.Account.Evm.Ledger.{eth_recorded}
use bounded_spending_account.Account.Evm.Solvent.{SendsNoOther, eth_that_leaves_is_recorded}
use bounded_spending_account.Tests.{config, quiet, world, small, spent}

-- Whoever is called passes 3 wei on to 78, and sends 5 wei back.
abbrev code : Address → ℕ → Bytes → Code (Unit {0})
code target value payload =
    pay target 78 3 (call_account target (receive_call 5) (λ succeeded. return []))

abbrev executed : World (Unit {0})
executed = record {
  account = spent small;
  eth = move_eth 77 1000 5 (move_eth 77 78 3 (move_eth 1000 77 small world.eth));
  rest = tt;
}

executes :
    handle (evm config 1200 quiet code 1) config 1200 1 (execute_call 77 small []) world
    ≡ ok executed
unfolding handle receive evm run execute validate_and_record_spend parse_spend_amounts
    check_and_update_panic_cooldown check_cooldown get_usd_value checked_add checked_mul
    apply_spend_and_update maybe_reset_windows record_eth_spend record_usdc_spend validate_eth_spend
    call_or_revert low_level_call move_eth
executes = refl

obeys :
    (target : Address) (value : ℕ) (payload : Bytes)
    → SendsNoOther config (code target value payload)
obeys target value payload = (tt, λ succeeded. tt)

eth_that_leaves_is_recorded_example :
    world.eth 1000 + eth_recorded world.account.logs
    ≤ executed.eth 1000 + eth_recorded executed.account.logs
eth_that_leaves_is_recorded_example =
    eth_that_leaves_is_recorded config 1200 quiet code obeys 1 1 (execute_call 77 small []) world tt
      executes

-- Then the owner requests a withdrawal.
abbrev asked : World (Unit {0})
asked = record executed {
  account = record (spent small) {
    emergency_withdraw_request_time = 1300;
    logs = (1300, emergency_withdraw_requested) ∷ (spent small).logs;
  };
}

life : Life (evm_at config quiet (λ now. code) 1) config 1500 asked
unfolding construct request_emergency_withdraw handle
life = wait 1500 (omega arith) (
    step
      (wait 1300 (omega arith) (
        step (wait 1200 (omega arith) (deployed {now = 1000} {w = world} refl))
          (handled 1 (execute_call 77 small []) executes)))
      (handled 2 request_emergency_withdraw_call refl))

any_window-eth_within_twice_the_limits_example :
    (eth_between 1100 (1100 + daily_window) asked.account.logs ≤ 10 ^ 18 + 10 ^ 18)
    × (eth_between 1100 (1100 + monthly_window) asked.account.logs ≤ 5 * 10 ^ 18 + 5 * 10 ^ 18)
any_window-eth_within_twice_the_limits_example =
    any_window-eth_within_twice_the_limits config quiet (λ now. code) 1 life 1100

all_usdc_within_the_limits_example :
    (usdc_total asked.account.logs ≤ 100000000) × (usdc_total asked.account.logs ≤ 500000000)
all_usdc_within_the_limits_example = all_usdc_within_the_limits config quiet (λ now. code) 1 life

pending_withdrawal_was-IsRequested_example : (1300 ≤ 1500) × IsRequested 1300 asked.account.logs
pending_withdrawal_was-IsRequested_example =
    pending_withdrawal_was-IsRequested config quiet (λ now. code) 1 life (λ e. omega arith)
