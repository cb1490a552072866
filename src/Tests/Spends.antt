-- ===== src/Tests/Spends.antt =====
-- Tests of the spends of src/SpendingAccount.sol.
use bounded_spending_account.Prelude.{ℕ, ◌≡◌, ◌≢◌, ◌<◌, ◌↔◌, refl, inl, arith, List, [], ◌∷◌}
use bounded_spending_account.Solidity.{ok, checked_add, checked_mul}
use bounded_spending_account.Solidity.Abi.{Call}
use bounded_spending_account.LimitPolicy.{
  maybe_reset_windows, validate_eth_spend, validate_usdc_spend,
}
use bounded_spending_account.Account.{Account, usdc_address, usdc_spent}
use bounded_spending_account.Account.Spending.{
  get_usd_value, check_cooldown, check_and_update_panic_cooldown, validate_preflight_limits,
  record_eth_spend, record_usdc_spend, apply_spend_and_update, apply_usdc_spend,
}
use bounded_spending_account.Account.Spending.Outcome.{
  IsSpend, apply_spend_and_update-IsSpend, IsUsdcSpend, apply_usdc_spend-IsUsdcSpend,
}
use bounded_spending_account.Account.Spending.Cooldown.{
  IsPreflight, validate_preflight_limits-IsPreflight,
}
use bounded_spending_account.Account.Spending.Agreement.{
  IsInRange, after_eth_spend, validated_small_spend_is_recorded, stale_usdc_counter_blocks_charge,
}
use bounded_spending_account.Account.Parsing.{
  Spend, parse_spend_amounts, parse_spend_amounts_from_call_data, add_up, nothing,
}
use bounded_spending_account.Account.Parsing.Accepted.{parse_spend_amounts_iff}
use bounded_spending_account.Account.Parsing.CallData.{execute_data, preflight_parses_execute}
use bounded_spending_account.Solidity.Abi.Encoding.{IsEncodable}
use bounded_spending_account.Tests.{config, fresh, small, large, spent, send}

-- The account after 0.01 ETH at 1200.
abbrev spent_once : Account
spent_once = spent small

apply_spend_and_update-IsSpend_example : IsSpend config 1200 small 0 fresh spent_once
unfolding apply_spend_and_update maybe_reset_windows record_eth_spend record_usdc_spend
    validate_eth_spend checked_add
apply_spend_and_update-IsSpend_example =
    apply_spend_and_update-IsSpend config 1200 small 0 fresh refl

-- The account after a charge of 9 units of USDC at 1200.
abbrev charged_once : Account
charged_once = record fresh {
  daily_usdc_spent = 9;
  monthly_usdc_spent = 9;
  logs = (1200, usdc_spent 9) ∷ [];
}

apply_usdc_spend-IsUsdcSpend_example : IsUsdcSpend config 1200 9 fresh charged_once
unfolding apply_usdc_spend maybe_reset_windows validate_usdc_spend checked_add
apply_usdc_spend-IsUsdcSpend_example = apply_usdc_spend-IsUsdcSpend config 1200 9 fresh refl

-- The account after a large spend has been validated at 1200.
abbrev hot : Account
hot = record fresh { last_large_spend_time = 1200 }

validate_preflight_limits-IsPreflight_example : IsPreflight config 1200 large 10 fresh hot
unfolding validate_preflight_limits maybe_reset_windows validate_eth_spend validate_usdc_spend
    check_and_update_panic_cooldown check_cooldown get_usd_value checked_add checked_mul
validate_preflight_limits-IsPreflight_example =
    validate_preflight_limits-IsPreflight config 1200 large 10 fresh refl

small-IsInRange : IsInRange config 1200 small 0 fresh
small-IsInRange = record {
  daily_end = omega arith;
  monthly_end = omega arith;
  now_end = omega arith;
  cooldown_end = omega arith;
  value = omega arith;
  total = omega arith;
  threshold = omega arith;
  limits = (omega arith, omega arith, omega arith, omega arith);
}

validated_small : validate_preflight_limits config 1200 small 10 fresh ≡ ok fresh
unfolding validate_preflight_limits maybe_reset_windows validate_eth_spend validate_usdc_spend
    check_and_update_panic_cooldown check_cooldown get_usd_value checked_add checked_mul
validated_small = refl

validated_small_spend_is_recorded_example :
    (check_and_update_panic_cooldown config 1200 small 0 fresh ≡ ok fresh)
    × (apply_spend_and_update config 1200 small 0 fresh ≡ ok (after_eth_spend 1200 small fresh))
validated_small_spend_is_recorded_example =
    validated_small_spend_is_recorded config 1200 small 10 fresh validated_small small-IsInRange
      (λ h. omega arith)

-- 90 of the 100 USDC of a day have been spent, a long time ago.
abbrev stale : Account
stale = record fresh { daily_usdc_spent = 90000000; monthly_usdc_spent = 90000000 }

stale-IsInRange : IsInRange config 9000000 0 20000000 stale
stale-IsInRange = record {
  daily_end = omega arith;
  monthly_end = omega arith;
  now_end = omega arith;
  cooldown_end = omega arith;
  value = omega arith;
  total = omega arith;
  threshold = omega arith;
  limits = (omega arith, omega arith, omega arith, omega arith);
}

stale_usdc_counter_blocks_charge_example :
    (validate_preflight_limits config 9000000 0 20000000 stale ≡ ok stale)
    × ((later : ℕ) (s' : Account) → apply_usdc_spend config later 20000000 stale ≢ ok s')
stale_usdc_counter_blocks_charge_example =
    stale_usdc_counter_blocks_charge config 9000000 20000000 stale stale-IsInRange (inl refl)
      (λ h. omega arith) (omega arith) (omega arith) (omega arith) (omega arith) (omega arith)

abbrev five : Spend
five = record { eth = 5; usdc = 0 }

parse_spend_amounts_iff_example :
    (parse_spend_amounts 77 5 [] ≡ ok five)
    ↔ (((send 5).target ≢ usdc_address) × (0 < 5) × (five ≡ record { eth = 5; usdc = 0 }))
parse_spend_amounts_iff_example = parse_spend_amounts_iff 77 5 [] five

abbrev calls : List Call
calls = send small ∷ send large ∷ []

abbrev both : Spend
both = record { eth = 30000000000000000; usdc = 0 }

added : add_up calls nothing ≡ ok both
unfolding add_up parse_spend_amounts checked_add
added = refl

fits : IsEncodable (send small)
fits = record { target = omega arith; value = omega arith; payload = omega arith }

preflight_parses_execute_example :
    parse_spend_amounts_from_call_data (execute_data (send small))
    ≡ parse_spend_amounts 77 small (1 ∷ 2 ∷ [])
preflight_parses_execute_example = preflight_parses_execute (send small) fits
