-- ===== src/Account/History/Eth/Windows.antt =====
-- One rolling window of src/LimitPolicy.sol against the list of all spends: what a counter and its
-- anchor say of the past.
use bounded_spending_account.Prelude.{
  ℕ, ◌+◌, ◌≤◌, ◌<◌, ◌≡◌, List, [], ◌∷◌, arith, ◌&&◌, leb, ltb, ◌==◌, refl, if◌then◌else◌, inl, inr,
  Bool-cases, leb→le, leb→lt,
}
use bounded_spending_account.Account.Spending.Outcome.{anchor_after, counter_after, logs_after}
use bounded_spending_account.Account.{Event, Log, eth_spent, usdc_spent}

-- The wei that an event records as spent.
unfoldable pub eth_amount : Event → ℕ
eth_amount (eth_spent amount) = amount
eth_amount _ = 0

-- The wei recorded as spent at times from `lo` on and before `hi`.
pub eth_between : ℕ → ℕ → List Log → ℕ
eth_between lo hi [] = 0
eth_between lo hi ((at, event) ∷ logs) =
    (if leb lo at && ltb at hi then eth_amount event else 0) + eth_between lo hi logs

pub eth_between_split :
    (lo mid hi : ℕ) (logs : List Log)
    → lo ≤ mid
    → mid ≤ hi
    → eth_between lo hi logs ≡ eth_between lo mid logs + eth_between mid hi logs
unfolding eth_between
eth_between_split lo mid hi [] p q = omega arith
eth_between_split lo mid hi ((at, e) ∷ logs) p q =
    ground (arith, eth_between_split lo mid hi logs p q)

pub eth_between_narrow :
    (lo lo' hi : ℕ) (logs : List Log) → lo ≤ lo' → eth_between lo' hi logs ≤ eth_between lo hi logs
unfolding eth_between
eth_between_narrow lo lo' hi [] p = omega arith
eth_between_narrow lo lo' hi ((at, e) ∷ logs) p =
    ground (arith, eth_between_narrow lo lo' hi logs p)

-- A window of the given length and limit, with its anchor and its counter, tells this of the past:
-- since the anchor no more was spent than the counter says, which is within the limit; in the
-- window's length before the anchor no more than the limit was spent, and in any interval of that
-- length no more than twice the limit.
pub record IsWindowed (window limit anchor counter : ℕ) (logs : List Log) : Type 0 where
  pub fresh : (hi : ℕ) → eth_between (anchor + window) hi logs ≡ 0
  pub current : (hi : ℕ) → eth_between anchor hi logs ≤ counter
  pub counter_le : counter ≤ limit
  pub previous : (lo : ℕ) → anchor ≤ lo + window → eth_between lo anchor logs ≤ limit
  pub any : (lo : ℕ) → eth_between lo (lo + window) logs ≤ limit + limit

module _ (window limit anchor counter now : ℕ) (logs : List Log)
    (i : IsWindowed window limit anchor counter logs) where
  -- The window starts anew at `now`, with any counter within the limit.
  pub IsWindowed-reset :
      (counter' : ℕ)
      → anchor + window ≤ now
      → counter' ≤ limit
      → IsWindowed window limit now counter' logs
  IsWindowed-reset counter' late fits = record {
    fresh = λ hi.
        omega (arith, i.fresh hi, eth_between_narrow (anchor + window) (now + window) hi logs);
    current = λ hi. omega (arith, i.fresh hi, eth_between_narrow (anchor + window) now hi logs);
    counter_le = fits;
    previous =
        λ lo h. omega (arith, i.current now, i.counter_le, eth_between_narrow anchor lo now logs);
    any = i.any;
  }

  room :
      (amount lo : ℕ)
      → anchor ≤ now
      → counter + amount ≤ limit
      → lo ≤ now
      → now < lo + window
      → amount + eth_between lo (lo + window) logs ≤ limit + limit
  room amount lo started fits after before = elim (Bool-cases (leb lo anchor)) [
    | inl e ↦
        let early : lo ≤ anchor = leb→le lo anchor e in
        omega (
          arith,
          eth_between_split lo anchor (lo + window) logs early (omega arith),
          i.previous lo (omega arith),
          i.current (lo + window),
        )
    | inr e ↦
        let inside : anchor < lo = leb→lt lo anchor e in
        omega (
          arith,
          eth_between_narrow anchor lo (lo + window) logs (omega arith),
          i.current (lo + window),
        )
  ]

  -- A spend at `now`, within the window, is added to the counter.
  pub IsWindowed-spend :
      (amount : ℕ)
      → anchor ≤ now
      → now < anchor + window
      → counter + amount ≤ limit
      → IsWindowed window limit anchor (counter + amount) ((now, eth_spent amount) ∷ logs)
  unfolding eth_between eth_amount
  IsWindowed-spend amount started open_still fits = record {
    fresh = λ hi. ground (arith, i.fresh hi);
    current = λ hi. ground (arith, i.current hi);
    counter_le = fits;
    previous = λ lo h. ground (arith, i.previous lo h);
    any = λ lo. ground (arith, i.any lo, room amount lo started fits);
  }

-- An event that spends no ETH changes nothing.
pub IsWindowed-other :
    (window limit anchor counter at : ℕ) (e : Event) (logs : List Log)
    → eth_amount e ≡ 0
    → IsWindowed window limit anchor counter logs
    → IsWindowed window limit anchor counter ((at, e) ∷ logs)
unfolding eth_between
IsWindowed-other window limit anchor counter at e logs none_spent i = record {
  fresh = λ hi. ground (arith, i.fresh hi);
  current = λ hi. ground (arith, i.current hi);
  counter_le = i.counter_le;
  previous = λ lo h. ground (arith, i.previous lo h);
  any = λ lo. ground (arith, i.any lo);
}

-- The reset of a window at `now`, with nothing spent, and the counter kept as it was.
pub IsWindowed-after :
    (window limit anchor counter now : ℕ) (logs : List Log)
    → IsWindowed window limit anchor counter logs
    → IsWindowed window limit (anchor_after window anchor now) counter logs
IsWindowed-after window limit anchor counter now logs i =
    elim (Bool-cases (leb (anchor + window) now)) [
      | inl e ↦ rw e (
          IsWindowed-reset window limit anchor counter now logs i counter
            (leb→le (anchor + window) now e) i.counter_le)
      | inr e ↦ rw e i
    ]

-- The reset of a window at `now`, and a spend that fits under the limit with the counter after it.
pub IsWindowed-after_spend :
    (window limit anchor counter now amount : ℕ) (logs : List Log)
    → 0 < window
    → anchor ≤ now
    → counter_after window anchor now counter + amount ≤ limit
    → IsWindowed window limit anchor counter logs
    → IsWindowed window limit
        (anchor_after window anchor now)
        (counter_after window anchor now counter + amount)
        ((now, eth_spent amount) ∷ logs)
IsWindowed-after_spend window limit anchor counter now amount logs some_time started fits i =
    elim (Bool-cases (leb (anchor + window) now)) [
      | inl e ↦
          let emptied =
            IsWindowed-reset window limit anchor counter now logs i 0
              (leb→le (anchor + window) now e) (omega arith) in
          rw e (
            IsWindowed-spend window limit now 0 now logs emptied amount (omega arith) (omega arith)
              (rw e at fits))
      | inr e ↦ rw e (
          IsWindowed-spend window limit anchor counter now logs i amount started
            (leb→lt (anchor + window) now e) (rw e at fits))
    ]

-- The events of a spend of `usdc` units, on top of logs that a window describes.
with_usdc :
    (window limit anchor counter now usdc : ℕ) (logs : List Log)
    → IsWindowed window limit anchor counter logs
    → IsWindowed window limit anchor counter (logs_after now 0 usdc logs)
unfolding eth_amount
with_usdc window limit anchor counter now usdc logs i = elim (Bool-cases (usdc == 0)) [
  | inl e ↦ rw e i
  | inr e ↦ rw e (IsWindowed-other window limit anchor counter now (usdc_spent usdc) logs refl i)
]

-- A spend of ETH and USDC at `now`, as `IsSpend` describes it for one window.
pub IsWindowed-after_any :
    (window limit anchor counter now eth usdc : ℕ) (logs : List Log)
    → 0 < window
    → anchor ≤ now
    → (0 < eth → counter_after window anchor now counter + eth ≤ limit)
    → IsWindowed window limit anchor counter logs
    → IsWindowed window limit
        (anchor_after window anchor now)
        (if eth == 0 then counter else counter_after window anchor now counter + eth)
        (logs_after now eth usdc logs)
IsWindowed-after_any window limit anchor counter now eth usdc logs some_time started fits i =
    elim (Bool-cases (eth == 0)) [
      | inl e ↦ rw e (
          with_usdc window limit (anchor_after window anchor now) counter now usdc logs
            (IsWindowed-after window limit anchor counter now logs i))
      | inr e ↦ rw e (
          with_usdc window limit (anchor_after window anchor now)
            (counter_after window anchor now counter + eth) now usdc ((now, eth_spent eth) ∷ logs)
            (IsWindowed-after_spend window limit anchor counter now eth logs some_time started
              (fits (ground arith)) i))
    ]

-- A new window, before any event.
pub IsWindowed-start : (window limit anchor : ℕ) → IsWindowed window limit anchor 0 []
unfolding eth_between
IsWindowed-start window limit anchor = record {
  fresh = λ hi. refl;
  current = λ hi. omega arith;
  counter_le = omega arith;
  previous = λ lo h. omega arith;
  any = λ lo. omega arith;
}
