-- ===== src/Account/Spending/Agreement.antt =====
-- The preflight of src/SpendingAccount.sol against the recording of the same spend: where the two
-- agree, and where they do not.
use bounded_spending_account.Prelude.{
  ℕ, ◌+◌, ◌*◌, ◌≤◌, ◌<◌, ◌≡◌, ◌≢◌, ◌==◌, ◌∷◌, if◌then◌else◌, arith,
}
use bounded_spending_account.Solidity.{word_mod, ok, checked_add, checked_mul}
use bounded_spending_account.LimitPolicy.{
  daily_window, monthly_window, maybe_reset_windows, validate_eth_spend, validate_usdc_spend,
}
use bounded_spending_account.Account.{Config, Account, usdc_spent, cooldown_period}
use bounded_spending_account.Account.Spending.{
  get_usd_value, check_cooldown, check_and_update_panic_cooldown, validate_preflight_limits,
  record_eth_spend, record_usdc_spend, apply_spend_and_update, apply_usdc_spend,
}
use bounded_spending_account.Account.Spending.Outcome.{
  apply_usdc_spend-IsUsdcSpend, counter_after, anchor_after, logs_after,
}
use bounded_spending_account.Account.Spending.Cooldown.{
  IsCool, IsLarge, usd_total, validate_preflight_limits-IsPreflight,
}

-- The arithmetic of a spend of `eth` wei at `now` does not overflow, nor that of its windows.
pub record IsInRange (c : Config) (now eth usdc : ℕ) (s : Account) : Type 0 where
  pub daily_end : s.last_daily_reset_timestamp + daily_window < word_mod
  pub monthly_end : s.last_monthly_reset_timestamp + monthly_window < word_mod
  pub now_end : now + monthly_window < word_mod
  pub cooldown_end : s.last_large_spend_time + cooldown_period < word_mod
  pub value : eth * c.usdc_per_eth < word_mod
  pub total : usd_total c eth usdc < word_mod
  pub threshold : c.daily_usdc_limit * 5000 < word_mod
  pub limits :
      (c.daily_eth_limit < word_mod)
      × (c.monthly_eth_limit < word_mod)
      × (c.daily_usdc_limit < word_mod)
      × (c.monthly_usdc_limit < word_mod)

-- A cool account passes the cooldown test with any spend in range, and is unchanged if the spend is
-- not large.
pub check_and_update_panic_cooldown_small :
    (c : Config) (now eth usdc : ℕ) (s : Account)
    → IsInRange c now eth usdc s
    → IsCool now s
    → ¬ IsLarge c eth usdc
    → check_and_update_panic_cooldown c now eth usdc s ≡ ok s
unfolding check_and_update_panic_cooldown check_cooldown get_usd_value checked_add checked_mul
check_and_update_panic_cooldown_small c now eth usdc s r cool small = ground arith

-- The account after a spend of `eth` wei at `now`.
unfoldable pub after_eth_spend : ℕ → ℕ → Account → Account
after_eth_spend now eth s =
    let daily = counter_after daily_window s.last_daily_reset_timestamp now s.daily_eth_spent in
    let monthly =
      counter_after monthly_window s.last_monthly_reset_timestamp now s.monthly_eth_spent in
    record s {
      daily_eth_spent = if eth == 0 then s.daily_eth_spent else daily + eth;
      monthly_eth_spent = if eth == 0 then s.monthly_eth_spent else monthly + eth;
      last_daily_reset_timestamp = anchor_after daily_window s.last_daily_reset_timestamp now;
      last_monthly_reset_timestamp = anchor_after monthly_window s.last_monthly_reset_timestamp now;
      logs = logs_after now eth 0 s.logs;
    }

-- A spend of ETH that fits under both limits, once expired windows are emptied, is recorded.
pub apply_spend_and_update_fits :
    (c : Config) (now eth : ℕ) (s : Account)
    → IsInRange c now eth 0 s
    → (0 < eth
        → counter_after daily_window s.last_daily_reset_timestamp now s.daily_eth_spent + eth
          ≤ c.daily_eth_limit)
    → (0 < eth
        → counter_after monthly_window s.last_monthly_reset_timestamp now s.monthly_eth_spent + eth
          ≤ c.monthly_eth_limit)
    → apply_spend_and_update c now eth 0 s ≡ ok (after_eth_spend now eth s)
unfolding apply_spend_and_update maybe_reset_windows record_eth_spend record_usdc_spend
    validate_eth_spend checked_add after_eth_spend
apply_spend_and_update_fits c now eth s r d m = ground arith

-- With arithmetic in range, what the preflight has validated can be recorded, if it is not large:
-- the spend of ETH that the preflight was given, with any price of gas in USDC, passes the cooldown
-- test again and then the limits, at the same time.
pub validated_small_spend_is_recorded :
    (c : Config) (now eth gas_cost : ℕ) (s : Account) {t : Account}
    → validate_preflight_limits c now eth gas_cost s ≡ ok t
    → IsInRange c now eth 0 s
    → ¬ IsLarge c eth gas_cost
    → (check_and_update_panic_cooldown c now eth 0 t ≡ ok t)
      × (apply_spend_and_update c now eth 0 t ≡ ok (after_eth_spend now eth s))
validated_small_spend_is_recorded c now eth gas_cost s {t} h r small =
    let p = validate_preflight_limits-IsPreflight c now eth gas_cost s h in
    let same : t ≡ s = ground (arith, p.cooled.written) in
    rw same (
      check_and_update_panic_cooldown_small c now eth 0 s r p.cooled.cool
          (λ large. small (omega arith)),
      apply_spend_and_update_fits c now eth s r p.daily_eth p.monthly_eth,
    )

-- The account after a charge of `amount` units of USDC at `now`.
unfoldable pub after_usdc_charge : ℕ → ℕ → Account → Account
after_usdc_charge now amount s = record s {
  daily_usdc_spent = s.daily_usdc_spent + amount;
  monthly_usdc_spent = s.monthly_usdc_spent + amount;
  last_daily_reset_timestamp = anchor_after daily_window s.last_daily_reset_timestamp now;
  last_monthly_reset_timestamp = anchor_after monthly_window s.last_monthly_reset_timestamp now;
  logs = (now, usdc_spent amount) ∷ s.logs;
}

-- With arithmetic in range, the charge for gas that was part of a validated spend goes through
-- while neither window has expired: after a preflight with a price of gas above 0 and the recording
-- of its ETH, any charge up to that price succeeds.
pub validated_gas_is_charged :
    (c : Config) (now eth gas_cost charge : ℕ) (s : Account) {t : Account}
    → validate_preflight_limits c now eth gas_cost s ≡ ok t
    → IsInRange c now eth 0 s
    → now < s.last_daily_reset_timestamp + daily_window
    → now < s.last_monthly_reset_timestamp + monthly_window
    → 0 < gas_cost
    → charge ≤ gas_cost
    → apply_usdc_spend c now charge (after_eth_spend now eth s)
      ≡ ok (after_usdc_charge now charge (after_eth_spend now eth s))
unfolding after_eth_spend after_usdc_charge apply_usdc_spend maybe_reset_windows validate_usdc_spend
    checked_add
validated_gas_is_charged c now eth gas_cost charge s h r daily monthly p le =
    let f = validate_preflight_limits-IsPreflight c now eth gas_cost s h in
    ground (arith, f.daily_usdc, f.monthly_usdc)

-- With arithmetic in range, a cool account and both windows expired, a charge that is not large and
-- is within both limits, but exceeds the daily limit together with the daily counter, passes the
-- preflight, which counts the window as empty, and then fails, at that time and at any other.
pub stale_usdc_counter_blocks_charge :
    (c : Config) (now charge : ℕ) (s : Account)
    → IsInRange c now 0 charge s
    → IsCool now s
    → ¬ IsLarge c 0 charge
    → s.last_daily_reset_timestamp + daily_window ≤ now
    → s.last_monthly_reset_timestamp + monthly_window ≤ now
    → charge ≤ c.daily_usdc_limit
    → charge ≤ c.monthly_usdc_limit
    → c.daily_usdc_limit < s.daily_usdc_spent + charge
    → (validate_preflight_limits c now 0 charge s ≡ ok s)
      × ((later : ℕ) (s' : Account) → apply_usdc_spend c later charge s ≢ ok s')
unfolding validate_preflight_limits maybe_reset_windows validate_usdc_spend checked_add
stale_usdc_counter_blocks_charge c now charge s r cool small daily monthly fits fits' over = (
  ground (arith, check_and_update_panic_cooldown_small c now 0 charge s r cool small),
  λ later s' e. omega (
    arith,
    (apply_usdc_spend-IsUsdcSpend c later charge s e).daily_usdc,
    (apply_usdc_spend-IsUsdcSpend c later charge s e).daily_usdc_le,
  ),
)
