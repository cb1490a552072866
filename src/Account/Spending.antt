-- ===== src/Account/Spending.antt =====
-- The limits and the cooldown of src/SpendingAccount.sol: `_checkAndUpdatePanicCooldown`,
-- `_validatePreflightLimits`, `_applySpendAndUpdate` and `_applyUsdcSpend`.
pub mod Outcome
pub mod Cooldown
pub mod Agreement
use bounded_spending_account.Prelude.{ℕ, ◌/◌, ◌^◌, ltb, ◌==◌, if◌then◌else◌}
use bounded_spending_account.Solidity.{
  large_spend_cooldown_active, Result, ok, ◌>>=◌, ◌>>◌, revert_if, checked_add, checked_mul,
}
use bounded_spending_account.LimitPolicy.{
  maybe_reset_windows, validate_eth_spend, validate_usdc_spend,
}
use bounded_spending_account.Account.{
  Config, Account, cooldown_period, panic_threshold_bps, emit, eth_spent, usdc_spent,
}

-- `_getUsdValue`
unfoldable pub get_usd_value : Config → ℕ → Result ℕ
get_usd_value c eth_amount = do value ← checked_mul eth_amount c.usdc_per_eth; ok (value / 10 ^ 18)

-- The first test of `_checkAndUpdatePanicCooldown`: the sum is formed only if `!= 0` holds.
unfoldable pub check_cooldown : ℕ → ℕ → Result (Unit {0})
check_cooldown now last_large_spend_time = if last_large_spend_time == 0 then ok tt else (do
  cooldown_end ← checked_add last_large_spend_time cooldown_period
  revert_if (ltb now cooldown_end) large_spend_cooldown_active)

-- `_checkAndUpdatePanicCooldown`
unfoldable pub check_and_update_panic_cooldown : Config → ℕ → ℕ → ℕ → Account → Result Account
check_and_update_panic_cooldown c now eth_amount usdc_amount s = do
  check_cooldown now s.last_large_spend_time
  eth_value ← get_usd_value c eth_amount
  total_usd_value ← checked_add eth_value usdc_amount
  threshold ← checked_mul c.daily_usdc_limit panic_threshold_bps
  ok (
      if ltb (threshold / 10000) total_usd_value
      then record s { last_large_spend_time = now }
      else s)

-- `_validatePreflightLimits`
unfoldable pub validate_preflight_limits : Config → ℕ → ℕ → ℕ → Account → Result Account
validate_preflight_limits c now eth_spend usdc_spend s = do
  e ←
      maybe_reset_windows s.last_daily_reset_timestamp s.last_monthly_reset_timestamp
        s.daily_eth_spent s.monthly_eth_spent now
  u ←
      maybe_reset_windows s.last_daily_reset_timestamp s.last_monthly_reset_timestamp
        s.daily_usdc_spent s.monthly_usdc_spent now
  if eth_spend == 0
      then ok tt
      else validate_eth_spend e.daily_spent e.monthly_spent c.daily_eth_limit c.monthly_eth_limit
          eth_spend
  if usdc_spend == 0
      then ok tt
      else validate_usdc_spend u.daily_spent u.monthly_spent c.daily_usdc_limit c.monthly_usdc_limit
          usdc_spend
  check_and_update_panic_cooldown c now eth_spend usdc_spend s

-- The part of `_applySpendAndUpdate` under `if (ethAmount > 0)`, on the counters after the reset.
unfoldable pub record_eth_spend : Config → ℕ → ℕ → ℕ → ℕ → Account → Result Account
record_eth_spend c now daily_eth monthly_eth eth_amount s = if eth_amount == 0 then ok s else (do
  validate_eth_spend daily_eth monthly_eth c.daily_eth_limit c.monthly_eth_limit eth_amount
  daily ← checked_add daily_eth eth_amount
  monthly ← checked_add monthly_eth eth_amount
  ok (
      emit now (eth_spent eth_amount)
        (record s { daily_eth_spent = daily; monthly_eth_spent = monthly })))

-- The part of `_applySpendAndUpdate` under `if (usdcAmount > 0)`, on the counters after the reset.
unfoldable pub record_usdc_spend : Config → ℕ → ℕ → ℕ → ℕ → Account → Result Account
record_usdc_spend c now daily_usdc monthly_usdc usdc_amount s =
    if usdc_amount == 0 then ok s else (do
      validate_usdc_spend daily_usdc monthly_usdc c.daily_usdc_limit c.monthly_usdc_limit
          usdc_amount
      daily ← checked_add daily_usdc usdc_amount
      monthly ← checked_add monthly_usdc usdc_amount
      ok (
          emit now (usdc_spent usdc_amount)
            (record s { daily_usdc_spent = daily; monthly_usdc_spent = monthly })))

-- `_applySpendAndUpdate`
unfoldable pub apply_spend_and_update : Config → ℕ → ℕ → ℕ → Account → Result Account
apply_spend_and_update c now eth_amount usdc_amount s = do
  e ←
      maybe_reset_windows s.last_daily_reset_timestamp s.last_monthly_reset_timestamp
        s.daily_eth_spent s.monthly_eth_spent now
  u ←
      maybe_reset_windows e.new_daily_reset e.new_monthly_reset s.daily_usdc_spent
        s.monthly_usdc_spent now
  s1 ← record_eth_spend c now e.daily_spent e.monthly_spent eth_amount s
  s2 ← record_usdc_spend c now u.daily_spent u.monthly_spent usdc_amount s1
  ok (record s2 {
    last_daily_reset_timestamp = e.new_daily_reset;
    last_monthly_reset_timestamp = e.new_monthly_reset;
  })

-- `_applyUsdcSpend`; the first reset is given `dailyEthSpent` and `monthlyUsdcSpent`, and only its
-- two timestamps are used
unfoldable pub apply_usdc_spend : Config → ℕ → ℕ → Account → Result Account
apply_usdc_spend c now amount s = do
  r ←
      maybe_reset_windows s.last_daily_reset_timestamp s.last_monthly_reset_timestamp
        s.daily_eth_spent s.monthly_usdc_spent now
  u ←
      maybe_reset_windows r.new_daily_reset r.new_monthly_reset s.daily_usdc_spent
        s.monthly_usdc_spent now
  validate_usdc_spend u.daily_spent u.monthly_spent c.daily_usdc_limit c.monthly_usdc_limit amount
  daily ← checked_add u.daily_spent amount
  monthly ← checked_add u.monthly_spent amount
  ok (
      emit now (usdc_spent amount) (record s {
        daily_usdc_spent = daily;
        monthly_usdc_spent = monthly;
        last_daily_reset_timestamp = r.new_daily_reset;
        last_monthly_reset_timestamp = r.new_monthly_reset;
      }))
