-- ===== src/Account/History/Requests.antt =====
-- The requests of an emergency withdrawal over the life of an account
-- (src/SpendingAccount.sol).
use bounded_spending_account.Prelude.{
  ℕ, ◌≤◌, ◌≡◌, ◌≢◌, inl, inr, List, ◌∷◌, arith, refl, ◌∙◌, ◌==◌, if◌then◌else◌, Bool-cases,
}
use bounded_spending_account.Account.{
  Config, Account, Event, Log, construct, emergency_withdraw_requested, eth_spent, usdc_spent,
  emergency_withdraw_executed,
}
use bounded_spending_account.Account.Spending.Outcome.{
  apply_spend_and_update-IsSpend, apply_usdc_spend-IsUsdcSpend, logs_after,
}
use bounded_spending_account.Account.Spending.Cooldown.{
  check_and_update_panic_cooldown-IsCooled, validate_preflight_limits-IsPreflight,
}
use bounded_spending_account.Account.History.{
  Change, validated, spent, charged, requested, cleared, withdrawn, Reach, created, later, change,
}

-- The logs hold a request of the emergency withdrawal, made at `at`.
pub data IsRequested (at : ℕ) : List Log → Type 0 where
  here : (logs : List Log) → IsRequested at ((at, emergency_withdraw_requested) ∷ logs)
  before : (log : Log) {logs : List Log} → IsRequested at logs → IsRequested at (log ∷ logs)

-- A pending request time is that of a logged request, and not of the future.
abbrev pub IsPending : ℕ → Account → Type 0
IsPending now s =
    s.emergency_withdraw_request_time ≢ 0
    → (s.emergency_withdraw_request_time ≤ now)
      × IsRequested s.emergency_withdraw_request_time s.logs

IsRequested-logs_after :
    (at now eth usdc : ℕ) (logs : List Log)
    → IsRequested at logs
    → IsRequested at (logs_after now eth usdc logs)
IsRequested-logs_after at now eth usdc logs r =
    on_top usdc (usdc_spent usdc) (on_top eth (eth_spent eth) r)
  where
    on_top :
        (amount : ℕ) (e : Event) {ls : List Log}
        → IsRequested at ls
        → IsRequested at (if amount == 0 then ls else (now, e) ∷ ls)
    on_top amount e q = elim (Bool-cases (amount == 0)) [
      | inl h ↦ rw h q
      | inr h ↦ rw h (before (now, e) q)
    ]

-- The request time is kept, and the logs grow.
kept :
    (now : ℕ) (s s' : Account)
    → s'.emergency_withdraw_request_time ≡ s.emergency_withdraw_request_time
    → ((at : ℕ) → IsRequested at s.logs → IsRequested at s'.logs)
    → IsPending now s
    → IsPending now s'
kept now s s' e grows p = λ nonzero.
    let q = p (λ z. nonzero (e ∙ z)) in rw e (q.0, grows s.emergency_withdraw_request_time q.1)

Change-IsPending :
    {c : Config} {now : ℕ} {s s' : Account} → Change c now s s' → IsPending now s → IsPending now s'
Change-IsPending {c} {now} {s} {s'} (validated eth usdc h) p =
    let w = (validate_preflight_limits-IsPreflight c now eth usdc s h).cooled in
    let same : s'.logs ≡ s.logs = ground arith in kept now s s' (ground arith) (λ at r. rw same r) p
Change-IsPending {c} {now} {s} {s'} (spent eth usdc {t = t} h k) p =
    let w = check_and_update_panic_cooldown-IsCooled c now eth usdc s h in
    let q = apply_spend_and_update-IsSpend c now eth usdc t k in
    let same : s'.logs ≡ logs_after now eth usdc s.logs = ground arith in
    kept now s s' (ground arith) (λ at r. rw same (IsRequested-logs_after at now eth usdc s.logs r))
      p
Change-IsPending {c} {now} {s} {s'} (charged amount h) p =
    let q = apply_usdc_spend-IsUsdcSpend c now amount s h in
    kept now s s' q.request (λ at r. rw q.logs (before (now, usdc_spent amount) r)) p
Change-IsPending {c} {now} (requested s) p = λ _. (omega arith, here s.logs)
Change-IsPending (cleared s) p = λ nonzero. absurd (nonzero refl)
Change-IsPending {c} {now} (withdrawn recipient eth usdc s) p = λ nonzero.
    ((p nonzero).0, before (now, emergency_withdraw_executed recipient eth usdc) (p nonzero).1)

-- At any time of an account's life a pending withdrawal was requested, by a logged request at the
-- very time that is stored and that has passed.
pub IsPending-was_requested : {c : Config} {now : ℕ} {s : Account} → Reach c now s → IsPending now s
unfolding construct
IsPending-was_requested (created now) = λ nonzero. absurd (nonzero refl)
IsPending-was_requested (later now' h r) =
    λ nonzero. let q = IsPending-was_requested r nonzero in (omega arith, q.1)
IsPending-was_requested (change r ch) = Change-IsPending ch (IsPending-was_requested r)
