-- ===== src/Account/Spending/Outcome.antt =====
-- What a successful spend leaves in the account: `_applySpendAndUpdate` and `_applyUsdcSpend` of
-- src/SpendingAccount.sol against a description of their effect.
use bounded_spending_account.Prelude.{
  ℕ, ◌+◌, ◌≤◌, ◌<◌, ◌≡◌, subst, List, ◌∷◌, leb, ◌==◌, if◌then◌else◌, arith,
}
use bounded_spending_account.Solidity.{Result, ok, ◌>>=◌, ◌>>◌, checked_add}
use bounded_spending_account.Solidity.Laws.{>>=-eq-ok, ok-injective}
use bounded_spending_account.LimitPolicy.{
  daily_window, monthly_window, Windows, maybe_reset_windows, validate_eth_spend,
  validate_usdc_spend,
}
use bounded_spending_account.LimitPolicy.Resets.{
  maybe_reset_windows-IsReset, maybe_reset_windows_again,
}
use bounded_spending_account.Account.{Config, Account, Log, emit, eth_spent, usdc_spent}
use bounded_spending_account.Account.Spending.{
  record_eth_spend, record_usdc_spend, apply_spend_and_update, apply_usdc_spend,
}

-- A window's anchor and counter after a spend at `now`: the window starts anew if it has expired,
-- and then the amount is added.
abbrev pub anchor_after : ℕ → ℕ → ℕ → ℕ
anchor_after window last now = if leb (last + window) now then now else last

abbrev pub counter_after : ℕ → ℕ → ℕ → ℕ → ℕ
counter_after window last now spent = if leb (last + window) now then 0 else spent

-- The events of a spend, on top of those before it: one for ETH and one for USDC, none at 0.
abbrev pub logs_after : ℕ → ℕ → ℕ → List Log → List Log
logs_after now eth_amount usdc_amount logs =
    let with_eth = if eth_amount == 0 then logs else (now, eth_spent eth_amount) ∷ logs in
    if usdc_amount == 0 then with_eth else (now, usdc_spent usdc_amount) ∷ with_eth

-- The effect of recording `amount` wei: nothing at 0, and else both counters and an event.
pub record IsEthRecord (c : Config) (now d m amount : ℕ) (s s' : Account) : Type 0 where
  pub daily : s'.daily_eth_spent ≡ (if amount == 0 then s.daily_eth_spent else d + amount)
  pub monthly : s'.monthly_eth_spent ≡ (if amount == 0 then s.monthly_eth_spent else m + amount)
  pub logs : s'.logs ≡ (if amount == 0 then s.logs else (now, eth_spent amount) ∷ s.logs)
  pub daily_le : 0 < amount → d + amount ≤ c.daily_eth_limit
  pub monthly_le : 0 < amount → m + amount ≤ c.monthly_eth_limit
  pub daily_usdc : s'.daily_usdc_spent ≡ s.daily_usdc_spent
  pub monthly_usdc : s'.monthly_usdc_spent ≡ s.monthly_usdc_spent
  pub request : s'.emergency_withdraw_request_time ≡ s.emergency_withdraw_request_time
  pub large : s'.last_large_spend_time ≡ s.last_large_spend_time

record_eth_spend-IsEthRecord :
    (c : Config) (now d m amount : ℕ) (s : Account) {s' : Account}
    → record_eth_spend c now d m amount s ≡ ok s'
    → IsEthRecord c now d m amount s s'
unfolding record_eth_spend validate_eth_spend checked_add
record_eth_spend-IsEthRecord c now d m amount s h = ground arith

-- The same for USDC.
pub record IsUsdcRecord (c : Config) (now d m amount : ℕ) (s s' : Account) : Type 0 where
  pub daily : s'.daily_usdc_spent ≡ (if amount == 0 then s.daily_usdc_spent else d + amount)
  pub monthly : s'.monthly_usdc_spent ≡ (if amount == 0 then s.monthly_usdc_spent else m + amount)
  pub logs : s'.logs ≡ (if amount == 0 then s.logs else (now, usdc_spent amount) ∷ s.logs)
  pub daily_le : 0 < amount → d + amount ≤ c.daily_usdc_limit
  pub monthly_le : 0 < amount → m + amount ≤ c.monthly_usdc_limit
  pub daily_eth : s'.daily_eth_spent ≡ s.daily_eth_spent
  pub monthly_eth : s'.monthly_eth_spent ≡ s.monthly_eth_spent
  pub request : s'.emergency_withdraw_request_time ≡ s.emergency_withdraw_request_time
  pub large : s'.last_large_spend_time ≡ s.last_large_spend_time

record_usdc_spend-IsUsdcRecord :
    (c : Config) (now d m amount : ℕ) (s : Account) {s' : Account}
    → record_usdc_spend c now d m amount s ≡ ok s'
    → IsUsdcRecord c now d m amount s s'
unfolding record_usdc_spend validate_usdc_spend checked_add
record_usdc_spend-IsUsdcRecord c now d m amount s h = ground arith

-- The effect of a spend of `eth` wei and `usdc` units at `now`, written with no call of the code.
pub record IsSpend (c : Config) (now eth usdc : ℕ) (s s' : Account) : Type 0 where
  pub daily_anchor :
      s'.last_daily_reset_timestamp ≡ anchor_after daily_window s.last_daily_reset_timestamp now
  pub monthly_anchor :
      s'.last_monthly_reset_timestamp
      ≡ anchor_after monthly_window s.last_monthly_reset_timestamp now
  pub daily_eth : s'.daily_eth_spent ≡ (
      if eth == 0
      then s.daily_eth_spent
      else counter_after daily_window s.last_daily_reset_timestamp now s.daily_eth_spent + eth)
  pub monthly_eth : s'.monthly_eth_spent ≡ (
      if eth == 0
      then s.monthly_eth_spent
      else counter_after monthly_window s.last_monthly_reset_timestamp now s.monthly_eth_spent
        + eth)
  pub daily_eth_le : 0 < eth → s'.daily_eth_spent ≤ c.daily_eth_limit
  pub monthly_eth_le : 0 < eth → s'.monthly_eth_spent ≤ c.monthly_eth_limit
  pub daily_usdc : s'.daily_usdc_spent ≡ s.daily_usdc_spent + usdc
  pub monthly_usdc : s'.monthly_usdc_spent ≡ s.monthly_usdc_spent + usdc
  pub daily_usdc_le : 0 < usdc → s'.daily_usdc_spent ≤ c.daily_usdc_limit
  pub monthly_usdc_le : 0 < usdc → s'.monthly_usdc_spent ≤ c.monthly_usdc_limit
  pub logs : s'.logs ≡ logs_after now eth usdc s.logs
  pub request : s'.emergency_withdraw_request_time ≡ s.emergency_withdraw_request_time
  pub large : s'.last_large_spend_time ≡ s.last_large_spend_time

-- The steps of `_applySpendAndUpdate`, joined.
IsSpend-join :
    (c : Config) (now eth usdc : ℕ) (s : Account) {e u : Windows} {s1 s2 : Account}
    → maybe_reset_windows s.last_daily_reset_timestamp s.last_monthly_reset_timestamp
        s.daily_eth_spent s.monthly_eth_spent now
      ≡ ok e
    → maybe_reset_windows e.new_daily_reset e.new_monthly_reset s.daily_usdc_spent
        s.monthly_usdc_spent now
      ≡ ok u
    → record_eth_spend c now e.daily_spent e.monthly_spent eth s ≡ ok s1
    → record_usdc_spend c now u.daily_spent u.monthly_spent usdc s1 ≡ ok s2
    → IsSpend c now eth usdc s (record s2 {
      last_daily_reset_timestamp = e.new_daily_reset;
      last_monthly_reset_timestamp = e.new_monthly_reset;
    })
IsSpend-join c now eth usdc s {e} {u} {s1} {s2} he hu h1 h2 = ground (
  arith,
  maybe_reset_windows-IsReset s.last_daily_reset_timestamp s.last_monthly_reset_timestamp
      s.daily_eth_spent s.monthly_eth_spent now he,
  maybe_reset_windows_again s.last_daily_reset_timestamp s.last_monthly_reset_timestamp
      s.daily_eth_spent s.monthly_eth_spent now s.daily_usdc_spent s.monthly_usdc_spent he hu,
  record_eth_spend-IsEthRecord c now e.daily_spent e.monthly_spent eth s h1,
  record_usdc_spend-IsUsdcRecord c now u.daily_spent u.monthly_spent usdc s1 h2,
)

-- A successful `_applySpendAndUpdate` has exactly the effect described by `IsSpend`.
pub apply_spend_and_update-IsSpend :
    (c : Config) (now eth usdc : ℕ) (s : Account) {s' : Account}
    → apply_spend_and_update c now eth usdc s ≡ ok s'
    → IsSpend c now eth usdc s s'
unfolding apply_spend_and_update
apply_spend_and_update-IsSpend c now eth usdc s h =
    let (e, he, h1) = >>=-eq-ok _ _ h in
    let (u, hu, h2) = >>=-eq-ok _ _ h1 in
    let (s1, hs1, h3) = >>=-eq-ok _ _ h2 in
    let (s2, hs2, h4) = >>=-eq-ok _ _ h3 in
    subst (λ t. IsSpend c now eth usdc s t) (ok-injective h4)
      (IsSpend-join c now eth usdc s he hu hs1 hs2)

-- The effect of a charge of `amount` units of USDC: that of a spend of USDC alone, with an event
-- also for an amount of 0.
pub record IsUsdcSpend (c : Config) (now amount : ℕ) (s s' : Account) : Type 0 where
  pub daily_anchor :
      s'.last_daily_reset_timestamp ≡ anchor_after daily_window s.last_daily_reset_timestamp now
  pub monthly_anchor :
      s'.last_monthly_reset_timestamp
      ≡ anchor_after monthly_window s.last_monthly_reset_timestamp now
  pub daily_eth : s'.daily_eth_spent ≡ s.daily_eth_spent
  pub monthly_eth : s'.monthly_eth_spent ≡ s.monthly_eth_spent
  pub daily_usdc : s'.daily_usdc_spent ≡ s.daily_usdc_spent + amount
  pub monthly_usdc : s'.monthly_usdc_spent ≡ s.monthly_usdc_spent + amount
  pub daily_usdc_le : s'.daily_usdc_spent ≤ c.daily_usdc_limit
  pub monthly_usdc_le : s'.monthly_usdc_spent ≤ c.monthly_usdc_limit
  pub logs : s'.logs ≡ (now, usdc_spent amount) ∷ s.logs
  pub request : s'.emergency_withdraw_request_time ≡ s.emergency_withdraw_request_time
  pub large : s'.last_large_spend_time ≡ s.last_large_spend_time

-- The steps of `_applyUsdcSpend` after the two resets.
charge_usdc : Config → ℕ → ℕ → Windows → Windows → Account → Result Account
charge_usdc c now amount r u s = do
  validate_usdc_spend u.daily_spent u.monthly_spent c.daily_usdc_limit c.monthly_usdc_limit amount
  daily ← checked_add u.daily_spent amount
  monthly ← checked_add u.monthly_spent amount
  ok (
      emit now (usdc_spent amount) (record s {
        daily_usdc_spent = daily;
        monthly_usdc_spent = monthly;
        last_daily_reset_timestamp = r.new_daily_reset;
        last_monthly_reset_timestamp = r.new_monthly_reset;
      }))

charge_usdc-IsUsdcSpend :
    (c : Config) (now amount : ℕ) (s : Account) {r u : Windows} {s' : Account}
    → maybe_reset_windows s.last_daily_reset_timestamp s.last_monthly_reset_timestamp
        s.daily_eth_spent s.monthly_usdc_spent now
      ≡ ok r
    → maybe_reset_windows r.new_daily_reset r.new_monthly_reset s.daily_usdc_spent
        s.monthly_usdc_spent now
      ≡ ok u
    → charge_usdc c now amount r u s ≡ ok s'
    → IsUsdcSpend c now amount s s'
unfolding charge_usdc validate_usdc_spend checked_add
charge_usdc-IsUsdcSpend c now amount s {r} {u} hr hu h = ground (
  arith,
  maybe_reset_windows-IsReset s.last_daily_reset_timestamp s.last_monthly_reset_timestamp
      s.daily_eth_spent s.monthly_usdc_spent now hr,
  maybe_reset_windows_again s.last_daily_reset_timestamp s.last_monthly_reset_timestamp
      s.daily_eth_spent s.monthly_usdc_spent now s.daily_usdc_spent s.monthly_usdc_spent hr hu,
)

-- A successful `_applyUsdcSpend` has exactly the effect described by `IsUsdcSpend`: the counters
-- grow by the amount and are within the limits, and the anchors move.
pub apply_usdc_spend-IsUsdcSpend :
    (c : Config) (now amount : ℕ) (s : Account) {s' : Account}
    → apply_usdc_spend c now amount s ≡ ok s'
    → IsUsdcSpend c now amount s s'
unfolding apply_usdc_spend charge_usdc
apply_usdc_spend-IsUsdcSpend c now amount s h =
    let (r, hr, h1) = >>=-eq-ok _ _ h in
    let (u, hu, h2) = >>=-eq-ok _ _ h1 in charge_usdc-IsUsdcSpend c now amount s hr hu h2
