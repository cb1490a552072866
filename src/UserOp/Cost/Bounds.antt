-- ===== src/UserOp/Cost/Bounds.antt =====
-- The price of gas in USDC is monotone, and its value is the premium price without rounding up.
use bounded_spending_account.Prelude.{ℕ, ◌+◌, ◌*◌, ◌/◌, ◌^◌, ◌≤◌, ◌<◌, ◌≡◌, arith}
use native.Mathlib.Nat.{mul-le-mul_right}
use bounded_spending_account.Solidity.{word_mod, ok, checked_add, checked_mul}
use bounded_spending_account.UserOp.Cost.{cost_in_usdc}

-- The price without overflow tests.
abbrev pub price : ℕ → ℕ → ℕ
price rate cost = (cost + cost * 500 / 10000) * rate / 10 ^ 18

-- No step of the computation overflows.
abbrev pub Fits : ℕ → ℕ → Type 0
Fits rate cost =
    (cost * 500 < word_mod)
    × (cost + cost * 500 / 10000 < word_mod)
    × ((cost + cost * 500 / 10000) * rate < word_mod)

-- A computed price is the exact one, and nothing has overflowed.
pub cost_in_usdc-eq-ok :
    (rate cost : ℕ) {u : ℕ} → cost_in_usdc rate cost ≡ ok u → (u ≡ price rate cost) × Fits rate cost
unfolding cost_in_usdc checked_add checked_mul
cost_in_usdc-eq-ok rate cost h = ground arith

cost_in_usdc-Fits : (rate cost : ℕ) → Fits rate cost → cost_in_usdc rate cost ≡ ok (price rate cost)
unfolding cost_in_usdc checked_add checked_mul
cost_in_usdc-Fits rate cost h = ground arith

premium_mono : (a b : ℕ) → a ≤ b → a + a * 500 / 10000 ≤ b + b * 500 / 10000
premium_mono a b h = omega arith

scaled_mono : (rate a b : ℕ) → a ≤ b → (a + a * 500 / 10000) * rate ≤ (b + b * 500 / 10000) * rate
scaled_mono rate a b h = mul-le-mul_right rate (premium_mono a b h)

pub price_mono : (rate a b : ℕ) → a ≤ b → price rate a ≤ price rate b
price_mono rate a b h = omega (arith, scaled_mono rate a b h)

-- What costs no more wei than an amount that was priced can be priced, at no more USDC.
pub cost_in_usdc-le :
    (rate a b : ℕ) {u : ℕ}
    → a ≤ b
    → cost_in_usdc rate b ≡ ok u
    → (cost_in_usdc rate a ≡ ok (price rate a)) × (price rate a ≤ u)
cost_in_usdc-le rate a b h e =
    let (exact, fits) = cost_in_usdc-eq-ok rate b e in
    let fits_a : Fits rate a = omega (arith, scaled_mono rate a b h) in
    (cost_in_usdc-Fits rate a fits_a, omega (arith, price_mono rate a b h))
