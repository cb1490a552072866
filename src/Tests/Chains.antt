-- ===== src/Tests/Chains.antt =====
-- Tests of the external functions of src/SpendingAccount.sol.
use bounded_spending_account.Prelude.{◌≡◌, ◌≢◌, ◌<◌, ◌+◌, ◌^◌, refl, inr, arith, List, [], ◌∷◌}
use bounded_spending_account.Solidity.{
  word_mod, large_spend_cooldown_active, withdraw_timelock_not_met, ok, revert, checked_add,
  checked_mul,
}
use bounded_spending_account.Solidity.Bytes.{to_be, from_be, from_be_onto, to_be_onto}
use bounded_spending_account.Solidity.Abi.{
  Call, decode_call, decode_address, decode_size, decode_bytes, word_at,
}
use bounded_spending_account.Solidity.Abi.Encoding.{encode_call, word, padding}
use bounded_spending_account.UserOp.Cost.{get_usdc_gas_cost_if_paymaster}
use bounded_spending_account.LimitPolicy.{maybe_reset_windows, validate_eth_spend}
use bounded_spending_account.Account.{Account, usdc_address, emergency_withdraw_executed}
use bounded_spending_account.Account.Spending.{
  get_usd_value, check_cooldown, check_and_update_panic_cooldown, validate_preflight_limits,
  record_eth_spend, record_usdc_spend, apply_spend_and_update,
}
use bounded_spending_account.Account.Parsing.{
  parse_spend_amounts, parse_spend_amounts_from_call_data, add_up,
}
use bounded_spending_account.Account.Parsing.CallData.{execute_data}
use bounded_spending_account.Account.Parsing.Batch.{AllSends, total_value}
use bounded_spending_account.Account.World.{World, move_eth, low_level_call, call_or_revert}
use bounded_spending_account.Account.Entry.{
  validate_signature, pay_prefund, validate_user_op, validate_and_record_spend, execute, do_calls,
  execute_batch, emergency_withdraw,
}
use bounded_spending_account.Account.Entry.Guards.{
  early_withdrawal_is_refused, large_operation_cannot_execute,
}
use bounded_spending_account.Account.Entry.Spends.{
  IsCounted, executed_call_is_recorded, executed_batch_is_recorded,
}
use bounded_spending_account.Tests.{
  config, quiet, fresh, world, small, large, spent, send, operation,
}

abbrev executed : World (Unit {0})
executed = record { account = spent small; eth = move_eth 1000 77 small world.eth; rest = tt }

executed_call_is_recorded_example :
    (config.entry_point ≡ config.entry_point)
    × (77 ≢ usdc_address)
    × (0 < small)
    × ((account : Account) × IsCounted config 1200 small fresh account
        × (call_or_revert quiet 1000 77 small [] (record world { account = account })
            ≡ ok executed))
unfolding execute validate_and_record_spend parse_spend_amounts check_and_update_panic_cooldown
    check_cooldown get_usd_value checked_add checked_mul apply_spend_and_update maybe_reset_windows
    record_eth_spend record_usdc_spend validate_eth_spend call_or_revert low_level_call move_eth
executed_call_is_recorded_example =
    executed_call_is_recorded quiet config 1200 1 77 small [] world refl

abbrev calls : List Call
calls = send small ∷ send large ∷ []

abbrev batch_executed : World (Unit {0})
batch_executed = record {
  account = record (spent (small + large)) { last_large_spend_time = 1200 };
  eth = move_eth 1000 77 large (move_eth 1000 77 small world.eth);
  rest = tt;
}

executed_batch_is_recorded_example :
    (config.entry_point ≡ config.entry_point)
    × AllSends calls
    × (total_value calls < word_mod)
    × ((account : Account) × IsCounted config 1200 (total_value calls) fresh account
        × (do_calls quiet config calls (record world { account = account }) ≡ ok batch_executed))
unfolding execute_batch do_calls add_up parse_spend_amounts check_and_update_panic_cooldown
    check_cooldown get_usd_value checked_add checked_mul apply_spend_and_update maybe_reset_windows
    record_eth_spend record_usdc_spend validate_eth_spend call_or_revert low_level_call move_eth
executed_batch_is_recorded_example = executed_batch_is_recorded quiet config 1200 1 calls world refl

-- The world after a large operation has been validated at 1200.
abbrev validated : World (Unit {0})
validated = record world { account = record fresh { last_large_spend_time = 1200 } }

parses :
    parse_spend_amounts_from_call_data (execute_data (send large))
    ≡ ok (record { eth = large; usdc = 0 })
unfolding parse_spend_amounts_from_call_data execute_data parse_spend_amounts encode_call word
    padding decode_call decode_address decode_size decode_bytes word_at to_be to_be_onto from_be
    from_be_onto
parses = refl

prices : get_usdc_gas_cost_if_paymaster 3 3000000000 0 (operation large) ≡ ok 0
unfolding get_usdc_gas_cost_if_paymaster
prices = refl

validates : validate_user_op quiet config 1200 0 1 (operation large) 9 0 world ≡ ok (0, validated)
unfolding validate_user_op validate_signature pay_prefund validate_preflight_limits
    maybe_reset_windows validate_eth_spend check_and_update_panic_cooldown check_cooldown
    get_usd_value checked_add checked_mul
validates = rw (parses, prices) refl

accepted : parse_spend_amounts 77 large (1 ∷ 2 ∷ []) ≡ ok (record { eth = large; usdc = 0 })
unfolding parse_spend_amounts
accepted = refl

large_operation_cannot_execute_example :
    execute quiet config 1200 1 77 large (1 ∷ 2 ∷ []) validated ≡ revert large_spend_cooldown_active
large_operation_cannot_execute_example =
    large_operation_cannot_execute quiet config 1200 0 (operation large) 9 world 1200 77 large
      (1 ∷ 2 ∷ []) validates parses prices (omega arith) accepted (omega arith) (omega arith)
      (omega arith)

-- The world after a request at 2000.
abbrev asked : World (Unit {0})
asked = record world { account = record fresh { emergency_withdraw_request_time = 2000 } }

early_withdrawal_is_refused_example :
    emergency_withdraw quiet config 3000 2 6 asked ≡ revert withdraw_timelock_not_met
early_withdrawal_is_refused_example =
    early_withdrawal_is_refused quiet config 3000 2 asked 6 refl (omega arith) (inr (omega arith))

abbrev withdrawn : World (Unit {0})
withdrawn = record {
  account = record fresh { logs = (200000, emergency_withdraw_executed 6 (10 ^ 18) 25) ∷ [] };
  eth = move_eth 1000 usdc_address 0 (move_eth 1000 6 (10 ^ 18) world.eth);
  rest = tt;
}
