-- ===== src/Account/History.antt =====
-- The lives that the storage of src/SpendingAccount.sol can have: the changes that its functions
-- make, in blocks with growing timestamps.
pub mod Usdc
pub mod Eth
pub mod Requests
use bounded_spending_account.Prelude.{ℕ, zero, ◌≤◌, ◌≡◌}
use bounded_spending_account.Solidity.{Address, ok}
use bounded_spending_account.Account.{
  Config, Account, construct, emit, emergency_withdraw_requested, emergency_withdraw_executed,
}
use bounded_spending_account.Account.Spending.{
  check_and_update_panic_cooldown, validate_preflight_limits, apply_spend_and_update,
  apply_usdc_spend,
}

-- One change of the storage in a block with timestamp `now`.
pub data Change (c : Config) (now : ℕ) : Account → Account → Type 0 where
  validated :
      (eth usdc : ℕ) {s s' : Account}
      → validate_preflight_limits c now eth usdc s ≡ ok s'
      → Change c now s s'
  spent :
      (eth usdc : ℕ) {s t s' : Account}
      → check_and_update_panic_cooldown c now eth usdc s ≡ ok t
      → apply_spend_and_update c now eth usdc t ≡ ok s'
      → Change c now s s'
  charged :
      (amount : ℕ) {s s' : Account} → apply_usdc_spend c now amount s ≡ ok s' → Change c now s s'
  requested :
      (s : Account)
      → Change c now s (
          emit now emergency_withdraw_requested
            (record s { emergency_withdraw_request_time = now }))
  cleared : (s : Account) → Change c now s (record s { emergency_withdraw_request_time = 0 })
  withdrawn :
      (recipient : Address) (eth usdc : ℕ) (s : Account)
      → Change c now s (emit now (emergency_withdraw_executed recipient eth usdc) s)

-- Changes in one block.
pub data Trace (c : Config) (now : ℕ) (s : Account) : Account → Type 0 where
  done : Trace c now s s
  more : {t u : Account} → Trace c now s t → Change c now t u → Trace c now s u

pub Trace-trans :
    {c : Config} {now : ℕ} {s t u : Account} → Trace c now s t → Trace c now t u → Trace c now s u
Trace-trans p done = p
Trace-trans p (more q ch) = more (Trace-trans p q) ch

-- The storage at a time, from its construction on.
pub data Reach (c : Config) : ℕ → Account → Type 0 where
  created : (now : ℕ) → Reach c now (construct now)
  later : {now : ℕ} {s : Account} (now' : ℕ) → now ≤ now' → Reach c now s → Reach c now' s
  change : {now : ℕ} {s t : Account} → Reach c now s → Change c now s t → Reach c now t

pub Reach-Trace :
    {c : Config} {now : ℕ} {s t : Account} → Reach c now s → Trace c now s t → Reach c now t
Reach-Trace r done = r
Reach-Trace r (more p ch) = change (Reach-Trace r p) ch
