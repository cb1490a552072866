-- ===== src/LimitPolicy/Resets.antt =====
-- What a successful window reset and a successful limit test say of their arguments
-- (src/LimitPolicy.sol).
use bounded_spending_account.Prelude.{ℕ, ◌+◌, ◌≤◌, ◌<◌, ◌≡◌, leb, if◌then◌else◌, arith}
use bounded_spending_account.Solidity.{word_mod, ok, checked_add}
use bounded_spending_account.LimitPolicy.{
  daily_window, monthly_window, Windows, maybe_reset_windows, validate_eth_spend,
  validate_usdc_spend,
}

-- One window before and after a reset at `now`: it is kept while it lasts, and else it starts
-- anew with nothing spent.
pub record IsReset (window last spent now last' spent' : ℕ) : Type 0 where
  pub anchor : last' ≡ (if leb (last + window) now then now else last)
  pub counter : spent' ≡ (if leb (last + window) now then 0 else spent)

pub maybe_reset_windows-IsReset :
    (ld lm d m now : ℕ) {w : Windows}
    → maybe_reset_windows ld lm d m now ≡ ok w
    → IsReset daily_window ld d now w.new_daily_reset w.daily_spent
      × IsReset monthly_window lm m now w.new_monthly_reset w.monthly_spent
unfolding maybe_reset_windows checked_add
maybe_reset_windows-IsReset ld lm d m now h = ground arith

-- A second reset at the same time keeps the anchors and the counters that it is given.
pub maybe_reset_windows_again :
    (ld lm d m now : ℕ) {w : Windows} (d' m' : ℕ) {v : Windows}
    → maybe_reset_windows ld lm d m now ≡ ok w
    → maybe_reset_windows w.new_daily_reset w.new_monthly_reset d' m' now ≡ ok v
    → (v.new_daily_reset ≡ w.new_daily_reset)
      × (v.new_monthly_reset ≡ w.new_monthly_reset)
      × (v.daily_spent ≡ d')
      × (v.monthly_spent ≡ m')
unfolding maybe_reset_windows checked_add
maybe_reset_windows_again ld lm d m now d' m' h k = ground arith

pub validate_eth_spend-eq-ok :
    (d m dl ml a : ℕ)
    → validate_eth_spend d m dl ml a ≡ ok tt
    → (d + a ≤ dl) × (m + a ≤ ml) × (d + a < word_mod) × (m + a < word_mod)
unfolding validate_eth_spend checked_add
validate_eth_spend-eq-ok d m dl ml a h = ground arith

pub validate_usdc_spend-eq-ok :
    (d m dl ml a : ℕ)
    → validate_usdc_spend d m dl ml a ≡ ok tt
    → (d + a ≤ dl) × (m + a ≤ ml) × (d + a < word_mod) × (m + a < word_mod)
unfolding validate_usdc_spend checked_add
validate_usdc_spend-eq-ok d m dl ml a h = ground arith
