-- ===== src/LimitPolicy.antt =====
-- src/LimitPolicy.sol: rolling windows and the tests of the limits.
pub mod Resets
use bounded_spending_account.Prelude.{ℕ, ◌+◌, ltb, leb, if◌then◌else◌}
use bounded_spending_account.Solidity.{
  Revert, daily_limit_exceeded, monthly_limit_exceeded, Result, ok, ◌>>=◌, ◌>>◌, revert_if,
  checked_add,
}

-- 24 hours and 30 days, in seconds
abbrev pub daily_window : ℕ
daily_window = 86400

abbrev pub monthly_window : ℕ
monthly_window = 2592000

-- The four values that `maybeResetWindows` returns.
pub record Windows : Type 0 where
  pub new_daily_reset : ℕ
  pub new_monthly_reset : ℕ
  pub daily_spent : ℕ
  pub monthly_spent : ℕ

unfoldable pub maybe_reset_windows : ℕ → ℕ → ℕ → ℕ → ℕ → Result Windows
maybe_reset_windows last_daily_reset last_monthly_reset daily_spent monthly_spent now = do
  daily_end ← checked_add last_daily_reset daily_window
  monthly_end ← checked_add last_monthly_reset monthly_window
  ok (record {
    new_daily_reset = if leb daily_end now then now else last_daily_reset;
    new_monthly_reset = if leb monthly_end now then now else last_monthly_reset;
    daily_spent = if leb daily_end now then 0 else daily_spent;
    monthly_spent = if leb monthly_end now then 0 else monthly_spent;
  })

unfoldable pub validate_eth_spend : ℕ → ℕ → ℕ → ℕ → ℕ → Result (Unit {0})
validate_eth_spend daily_spent monthly_spent daily_limit monthly_limit amount = do
  daily ← checked_add daily_spent amount
  revert_if (ltb daily_limit daily) (daily_limit_exceeded daily daily_limit)
  monthly ← checked_add monthly_spent amount
  revert_if (ltb monthly_limit monthly) (monthly_limit_exceeded monthly monthly_limit)

unfoldable pub validate_usdc_spend : ℕ → ℕ → ℕ → ℕ → ℕ → Result (Unit {0})
validate_usdc_spend daily_spent monthly_spent daily_limit monthly_limit amount = do
  daily ← checked_add daily_spent amount
  revert_if (ltb daily_limit daily) (daily_limit_exceeded daily daily_limit)
  monthly ← checked_add monthly_spent amount
  revert_if (ltb monthly_limit monthly) (monthly_limit_exceeded monthly monthly_limit)
