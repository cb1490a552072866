-- ===== src/Account/Spending/Cooldown.antt =====
-- `_checkAndUpdatePanicCooldown` and `_validatePreflightLimits` of src/SpendingAccount.sol: what
-- they test, what they write, and how they meet when one follows the other.
use bounded_spending_account.Prelude.{
  ℕ, ◌+◌, ◌*◌, ◌/◌, ◌^◌, ◌≤◌, ◌<◌, ◌≡◌, ◌≢◌, ltb, ◌==◌, if◌then◌else◌, arith, ◌⊎◌,
}
use bounded_spending_account.Solidity.{
  word_mod, large_spend_cooldown_active, Result, ok, revert, ◌>>◌, checked_add, checked_mul,
}
use bounded_spending_account.Solidity.Laws.{>>=-eq-ok}
use bounded_spending_account.LimitPolicy.{
  daily_window, monthly_window, Windows, maybe_reset_windows, validate_eth_spend,
  validate_usdc_spend,
}
use bounded_spending_account.LimitPolicy.Resets.{maybe_reset_windows-IsReset}
use bounded_spending_account.Account.{Config, Account, cooldown_period}
use bounded_spending_account.Account.Spending.{
  get_usd_value, check_cooldown, check_and_update_panic_cooldown, validate_preflight_limits,
}
use bounded_spending_account.Account.Spending.Outcome.{counter_after}

-- The dollar value of a spend, in USDC units.
abbrev pub usd_total : Config → ℕ → ℕ → ℕ
usd_total c eth usdc = eth * c.usdc_per_eth / 10 ^ 18 + usdc

-- More than half of the daily USDC limit.
abbrev pub IsLarge : Config → ℕ → ℕ → Type 0
IsLarge c eth usdc = c.daily_usdc_limit * 5000 / 10000 < usd_total c eth usdc

-- No large spend has been made in the last hour.
abbrev pub IsCool : ℕ → Account → Type 0
IsCool now s = (s.last_large_spend_time ≡ 0) ⊎ (s.last_large_spend_time + cooldown_period ≤ now)

pub record IsCooled (c : Config) (now eth usdc : ℕ) (s s' : Account) : Type 0 where
  pub cool : IsCool now s
  pub written : s' ≡ (
      if ltb (c.daily_usdc_limit * 5000 / 10000) (usd_total c eth usdc)
      then record s { last_large_spend_time = now }
      else s)

-- A passed cooldown test: the account is cool, and only the time of the last large spend is
-- written, exactly when this spend is large.
pub check_and_update_panic_cooldown-IsCooled :
    (c : Config) (now eth usdc : ℕ) (s : Account) {s' : Account}
    → check_and_update_panic_cooldown c now eth usdc s ≡ ok s'
    → IsCooled c now eth usdc s s'
unfolding check_and_update_panic_cooldown check_cooldown get_usd_value checked_add checked_mul
check_and_update_panic_cooldown-IsCooled c now eth usdc s h = ground arith

-- Within an hour after a large spend every test of the cooldown reverts, whatever the amounts.
pub check_and_update_panic_cooldown_hot :
    (c : Config) (now eth usdc : ℕ) (s : Account)
    → s.last_large_spend_time ≢ 0
    → now < s.last_large_spend_time + cooldown_period
    → s.last_large_spend_time + cooldown_period < word_mod
    → check_and_update_panic_cooldown c now eth usdc s ≡ revert large_spend_cooldown_active
unfolding check_and_update_panic_cooldown check_cooldown checked_add
check_and_update_panic_cooldown_hot c now eth usdc s h k b = ground arith

-- What a passed preflight says of its spend: it fits under the limits as the counters stand once
-- expired windows are emptied, and the cooldown test has passed.
pub record IsPreflight (c : Config) (now eth usdc : ℕ) (s s' : Account) : Type 0 where
  pub daily_eth :
      0 < eth
      → counter_after daily_window s.last_daily_reset_timestamp now s.daily_eth_spent + eth
        ≤ c.daily_eth_limit
  pub monthly_eth :
      0 < eth
      → counter_after monthly_window s.last_monthly_reset_timestamp now s.monthly_eth_spent + eth
        ≤ c.monthly_eth_limit
  pub daily_usdc :
      0 < usdc
      → counter_after daily_window s.last_daily_reset_timestamp now s.daily_usdc_spent + usdc
        ≤ c.daily_usdc_limit
  pub monthly_usdc :
      0 < usdc
      → counter_after monthly_window s.last_monthly_reset_timestamp now s.monthly_usdc_spent + usdc
        ≤ c.monthly_usdc_limit
  pub cooled : IsCooled c now eth usdc s s'

-- The steps of `_validatePreflightLimits` after the two resets.
preflight_tests : Config → ℕ → ℕ → ℕ → Windows → Windows → Account → Result Account
preflight_tests c now eth usdc e u s = do
  if eth == 0
      then ok tt
      else validate_eth_spend e.daily_spent e.monthly_spent c.daily_eth_limit c.monthly_eth_limit
          eth
  if usdc == 0
      then ok tt
      else validate_usdc_spend u.daily_spent u.monthly_spent c.daily_usdc_limit c.monthly_usdc_limit
          usdc
  check_and_update_panic_cooldown c now eth usdc s

preflight_tests-IsPreflight :
    (c : Config) (now eth usdc : ℕ) (s : Account) {e u : Windows} {s' : Account}
    → maybe_reset_windows s.last_daily_reset_timestamp s.last_monthly_reset_timestamp
        s.daily_eth_spent s.monthly_eth_spent now
      ≡ ok e
    → maybe_reset_windows s.last_daily_reset_timestamp s.last_monthly_reset_timestamp
        s.daily_usdc_spent s.monthly_usdc_spent now
      ≡ ok u
    → preflight_tests c now eth usdc e u s ≡ ok s'
    → IsPreflight c now eth usdc s s'
unfolding preflight_tests validate_eth_spend validate_usdc_spend checked_add
preflight_tests-IsPreflight c now eth usdc s {s' = s'} he hu h = ground (
  arith,
  check_and_update_panic_cooldown-IsCooled c now eth usdc s {s' = s'},
  maybe_reset_windows-IsReset s.last_daily_reset_timestamp s.last_monthly_reset_timestamp
      s.daily_eth_spent s.monthly_eth_spent now he,
  maybe_reset_windows-IsReset s.last_daily_reset_timestamp s.last_monthly_reset_timestamp
      s.daily_usdc_spent s.monthly_usdc_spent now hu,
)

-- A passed preflight proves that the spend fits and that the account is cool, and writes nothing
-- but the time of a large spend.
pub validate_preflight_limits-IsPreflight :
    (c : Config) (now eth usdc : ℕ) (s : Account) {s' : Account}
    → validate_preflight_limits c now eth usdc s ≡ ok s'
    → IsPreflight c now eth usdc s s'
unfolding validate_preflight_limits preflight_tests
validate_preflight_limits-IsPreflight c now eth usdc s h =
    let (e, he, h1) = >>=-eq-ok _ _ h in
    let (u, hu, h2) = >>=-eq-ok _ _ h1 in preflight_tests-IsPreflight c now eth usdc s he hu h2

-- After a preflight of a large spend, each test of the cooldown within the hour reverts: the
-- execution of the very spend that was validated, and any other.
pub large_preflight_blocks_execution :
    (c : Config) (now later eth usdc eth' usdc' : ℕ) (s : Account) {s' : Account}
    → validate_preflight_limits c now eth usdc s ≡ ok s'
    → IsLarge c eth usdc
    → 0 < now
    → later < now + cooldown_period
    → now + cooldown_period < word_mod
    → check_and_update_panic_cooldown c later eth' usdc' s' ≡ revert large_spend_cooldown_active
large_preflight_blocks_execution c now later eth usdc eth' usdc' s {s'} h large p soon b =
    let written = (validate_preflight_limits-IsPreflight c now eth usdc s h).cooled.written in
    let at : s'.last_large_spend_time ≡ now = ground arith in
    check_and_update_panic_cooldown_hot c later eth' usdc' s' (omega arith) (omega arith)
      (omega arith)
