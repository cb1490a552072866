-- ===== src/Account/History/Usdc.antt =====
-- The USDC counters over the life of an account (src/SpendingAccount.sol).
use bounded_spending_account.Prelude.{ℕ, ◌+◌, ◌≤◌, ◌≡◌, List, [], ◌∷◌, arith}
use bounded_spending_account.Account.{
  Config, Account, Log, construct, eth_spent, usdc_spent, emergency_withdraw_requested,
  emergency_withdraw_executed,
}
use bounded_spending_account.Account.Spending.Outcome.{
  apply_spend_and_update-IsSpend, apply_usdc_spend-IsUsdcSpend,
}
use bounded_spending_account.Account.Spending.Cooldown.{
  check_and_update_panic_cooldown-IsCooled, validate_preflight_limits-IsPreflight,
}
use bounded_spending_account.Account.History.{
  Change, validated, spent, charged, requested, cleared, withdrawn, Reach, created, later, change,
}

-- All USDC that has been recorded as spent.
pub usdc_total : List Log → ℕ
usdc_total [] = 0
usdc_total ((at, usdc_spent amount) ∷ logs) = amount + usdc_total logs
usdc_total ((at, eth_spent amount) ∷ logs) = usdc_total logs
usdc_total ((at, emergency_withdraw_requested) ∷ logs) = usdc_total logs
usdc_total ((at, emergency_withdraw_executed to e u) ∷ logs) = usdc_total logs

pub record IsUsdcCounted (c : Config) (s : Account) : Type 0 where
  pub daily : s.daily_usdc_spent ≡ usdc_total s.logs
  pub monthly : s.monthly_usdc_spent ≡ usdc_total s.logs
  pub daily_le : s.daily_usdc_spent ≤ c.daily_usdc_limit
  pub monthly_le : s.monthly_usdc_spent ≤ c.monthly_usdc_limit

Change-IsUsdcCounted :
    {c : Config} {now : ℕ} {s s' : Account}
    → Change c now s s'
    → IsUsdcCounted c s
    → IsUsdcCounted c s'
unfolding usdc_total
Change-IsUsdcCounted {c} {now} {s} {s'} (validated eth usdc h) i =
    ground (arith, (validate_preflight_limits-IsPreflight c now eth usdc s h).cooled)
Change-IsUsdcCounted {c} {now} {s} {s'} (spent eth usdc {t = t} h k) i = ground (
  arith,
  check_and_update_panic_cooldown-IsCooled c now eth usdc s h,
  apply_spend_and_update-IsSpend c now eth usdc t k,
)
Change-IsUsdcCounted {c} {now} {s} {s'} (charged amount h) i =
    ground (arith, apply_usdc_spend-IsUsdcSpend c now amount s h)
Change-IsUsdcCounted (requested s) i = ground arith
Change-IsUsdcCounted (cleared s) i = ground arith
Change-IsUsdcCounted (withdrawn recipient eth usdc s) i = ground arith

-- At any time of its life the account's two USDC counters are both the total of all USDC ever
-- recorded as spent, and that total is within both limits: no window ever empties them.
pub usdc_counters_never_reset :
    {c : Config} {now : ℕ} {s : Account} → Reach c now s → IsUsdcCounted c s
unfolding usdc_total construct
usdc_counters_never_reset (created now) = ground arith
usdc_counters_never_reset (later now' h r) = usdc_counters_never_reset r
usdc_counters_never_reset (change r ch) = Change-IsUsdcCounted ch (usdc_counters_never_reset r)
