-- ===== src/Account/History/Eth.antt =====
-- The ETH counters over the life of an account (src/SpendingAccount.sol): what can be spent in any
-- 24 hours and in any 30 days.
mod Windows
use bounded_spending_account.Prelude.{
  ℕ, ◌+◌, ◌≤◌, ◌<◌, ◌≡◌, List, refl, [], ◌∷◌, zero, suc, arith, ◌==◌, if◌then◌else◌,
}
use bounded_spending_account.LimitPolicy.{daily_window, monthly_window}
use bounded_spending_account.Account.{
  Config, Account, Event, construct, Log, usdc_spent, emergency_withdraw_requested,
  emergency_withdraw_executed,
}
use bounded_spending_account.Account.Spending.Outcome.{
  IsSpend, IsUsdcSpend, apply_spend_and_update-IsSpend, apply_usdc_spend-IsUsdcSpend,
}
use bounded_spending_account.Account.Spending.Cooldown.{
  IsCooled, check_and_update_panic_cooldown-IsCooled, validate_preflight_limits-IsPreflight,
}
use bounded_spending_account.Account.History.{
  Change, validated, spent, charged, requested, cleared, withdrawn, Reach, created, later, change,
}
pub use Windows.{eth_between}
use Windows.{
  IsWindowed, IsWindowed-start, IsWindowed-after, IsWindowed-after_any, IsWindowed-other,
  eth_amount,
}

-- Both windows, at a time that none of them starts after.
pub record IsEthBounded (c : Config) (now : ℕ) (s : Account) : Type 0 where
  pub daily :
      IsWindowed daily_window c.daily_eth_limit s.last_daily_reset_timestamp s.daily_eth_spent
        s.logs
  pub monthly :
      IsWindowed monthly_window c.monthly_eth_limit s.last_monthly_reset_timestamp
        s.monthly_eth_spent s.logs
  pub daily_started : s.last_daily_reset_timestamp ≤ now
  pub monthly_started : s.last_monthly_reset_timestamp ≤ now

-- A window that a change moves as told is still described.
moved :
    {window limit anchor anchor' counter counter' : ℕ} {logs logs' : List Log}
    → anchor' ≡ anchor
    → counter' ≡ counter
    → logs' ≡ logs
    → IsWindowed window limit anchor counter logs
    → IsWindowed window limit anchor' counter' logs'
moved p q r i = rw (p, q, r) i

module _ (c : Config) (now : ℕ) (s s' : Account) where
  spent-IsEthBounded :
      (eth usdc : ℕ) → IsSpend c now eth usdc s s' → IsEthBounded c now s → IsEthBounded c now s'
  spent-IsEthBounded eth usdc p i = record {
    daily = moved p.daily_anchor p.daily_eth p.logs (
        IsWindowed-after_any daily_window c.daily_eth_limit s.last_daily_reset_timestamp
          s.daily_eth_spent now eth usdc s.logs (omega arith) i.daily_started (ground arith)
          i.daily);
    monthly = moved p.monthly_anchor p.monthly_eth p.logs (
        IsWindowed-after_any monthly_window c.monthly_eth_limit s.last_monthly_reset_timestamp
          s.monthly_eth_spent now eth usdc s.logs (omega arith) i.monthly_started (ground arith)
          i.monthly);
    daily_started = ground arith;
    monthly_started = ground arith;
  }

  charged-IsEthBounded :
      (amount : ℕ) → IsUsdcSpend c now amount s s' → IsEthBounded c now s → IsEthBounded c now s'
  unfolding eth_amount
  charged-IsEthBounded amount p i = record {
    daily = moved p.daily_anchor p.daily_eth p.logs (
        IsWindowed-other _ _ _ _ now (usdc_spent amount) s.logs refl (
          IsWindowed-after daily_window c.daily_eth_limit s.last_daily_reset_timestamp
            s.daily_eth_spent now s.logs i.daily));
    monthly = moved p.monthly_anchor p.monthly_eth p.logs (
        IsWindowed-other _ _ _ _ now (usdc_spent amount) s.logs refl (
          IsWindowed-after monthly_window c.monthly_eth_limit s.last_monthly_reset_timestamp
            s.monthly_eth_spent now s.logs i.monthly));
    daily_started = ground arith;
    monthly_started = ground arith;
  }

-- A change of the time, or of fields that no window reads.
same-IsEthBounded :
    (c : Config) (now now' : ℕ) (s s' : Account)
    → now ≤ now'
    → s'.daily_eth_spent ≡ s.daily_eth_spent
    → s'.monthly_eth_spent ≡ s.monthly_eth_spent
    → s'.last_daily_reset_timestamp ≡ s.last_daily_reset_timestamp
    → s'.last_monthly_reset_timestamp ≡ s.last_monthly_reset_timestamp
    → s'.logs ≡ s.logs
    → IsEthBounded c now s
    → IsEthBounded c now' s'
same-IsEthBounded c now now' s s' h d m ld lm l i = record {
  daily = moved ld d l i.daily;
  monthly = moved lm m l i.monthly;
  daily_started = omega arith;
  monthly_started = omega arith;
}

event-IsEthBounded :
    (c : Config) (now : ℕ) (s : Account) (e : Event)
    → eth_amount e ≡ 0
    → IsEthBounded c now s
    → IsEthBounded c now (record s { logs = (now, e) ∷ s.logs })
event-IsEthBounded c now s e none_spent i = record {
  daily = IsWindowed-other _ _ _ _ now e s.logs none_spent i.daily;
  monthly = IsWindowed-other _ _ _ _ now e s.logs none_spent i.monthly;
  daily_started = i.daily_started;
  monthly_started = i.monthly_started;
}

-- A cooldown test writes no field that a window reads.
cooled-IsEthBounded :
    (c : Config) (now eth usdc : ℕ) (s s' : Account)
    → IsCooled c now eth usdc s s'
    → IsEthBounded c now s
    → IsEthBounded c now s'
cooled-IsEthBounded c now eth usdc s s' p i =
    same-IsEthBounded c now now s s' (omega arith) (ground arith) (ground arith) (ground arith)
      (ground arith) (ground arith) i

Change-IsEthBounded :
    {c : Config} {now : ℕ} {s s' : Account}
    → Change c now s s'
    → IsEthBounded c now s
    → IsEthBounded c now s'
unfolding eth_amount
Change-IsEthBounded {c} {now} {s} {s'} (validated eth usdc h) i =
    cooled-IsEthBounded c now eth usdc s s'
      (validate_preflight_limits-IsPreflight c now eth usdc s h).cooled i
Change-IsEthBounded {c} {now} {s} {s'} (spent eth usdc {t = t} h k) i =
    spent-IsEthBounded c now t s' eth usdc (apply_spend_and_update-IsSpend c now eth usdc t k) (
      cooled-IsEthBounded c now eth usdc s t
        (check_and_update_panic_cooldown-IsCooled c now eth usdc s h) i)
Change-IsEthBounded {c} {now} {s} {s'} (charged amount h) i =
    charged-IsEthBounded c now s s' amount (apply_usdc_spend-IsUsdcSpend c now amount s h) i
Change-IsEthBounded {c} {now} (requested s) i =
    event-IsEthBounded c now (record s { emergency_withdraw_request_time = now })
      emergency_withdraw_requested refl
      (same-IsEthBounded c now now s (record s { emergency_withdraw_request_time = now })
        (omega arith) refl refl refl refl refl i)
Change-IsEthBounded {c} {now} (cleared s) i =
    same-IsEthBounded c now now s (record s { emergency_withdraw_request_time = 0 }) (omega arith)
      refl refl refl refl refl i
Change-IsEthBounded {c} {now} (withdrawn recipient eth usdc s) i =
    event-IsEthBounded c now s (emergency_withdraw_executed recipient eth usdc) refl i

Reach-IsEthBounded : {c : Config} {now : ℕ} {s : Account} → Reach c now s → IsEthBounded c now s
unfolding construct
Reach-IsEthBounded {c} (created now) = record {
  daily = IsWindowed-start daily_window c.daily_eth_limit now;
  monthly = IsWindowed-start monthly_window c.monthly_eth_limit now;
  daily_started = omega arith;
  monthly_started = omega arith;
}
Reach-IsEthBounded (later {now = now} {s = s} now' h r) =
    same-IsEthBounded _ now now' s s h refl refl refl refl refl (Reach-IsEthBounded r)
Reach-IsEthBounded (change r ch) = Change-IsEthBounded ch (Reach-IsEthBounded r)

-- At any time of an account's life, since the anchor of each window the ETH recorded as spent is at
-- most the window's counter, which is within the window's limit.
pub current_window_within_limits :
    {c : Config} {now : ℕ} {s : Account}
    → Reach c now s
    → (hi : ℕ)
    → (eth_between s.last_daily_reset_timestamp hi s.logs ≤ s.daily_eth_spent)
      × (s.daily_eth_spent ≤ c.daily_eth_limit)
      × (eth_between s.last_monthly_reset_timestamp hi s.logs ≤ s.monthly_eth_spent)
      × (s.monthly_eth_spent ≤ c.monthly_eth_limit)
current_window_within_limits r hi =
    let i = Reach-IsEthBounded r in
    (i.daily.current hi, i.daily.counter_le, i.monthly.current hi, i.monthly.counter_le)

-- Over the life of an account, in any 24 hours at most twice the daily limit, and in any 30 days at
-- most twice the monthly limit, is recorded as spent in ETH.
pub any_window_within_twice_the_limits :
    {c : Config} {now : ℕ} {s : Account}
    → Reach c now s
    → (lo : ℕ)
    → (eth_between lo (lo + daily_window) s.logs ≤ c.daily_eth_limit + c.daily_eth_limit)
      × (eth_between lo (lo + monthly_window) s.logs ≤ c.monthly_eth_limit + c.monthly_eth_limit)
any_window_within_twice_the_limits r lo =
    let i = Reach-IsEthBounded r in (i.daily.any lo, i.monthly.any lo)
