-- ===== src/Scripts/RunOp/Prefund.antt =====
-- When lib/account-abstraction/src/runop.ts funds its account, and what the account then has.
use bounded_spending_account.Prelude.{
  ℕ, zero, suc, ◌+◌, ◌*◌, ◌/◌, ◌%◌, ◌^◌, ◌<◌, ◌≤◌, ◌≡◌, refl, ap, sym, ◌∙◌, subst, ◌⊎◌, inl, inr,
  true, List, [], ◌∷◌, replicate, leb, ◌==◌, Bool-cases, arith,
}
use native.Mathlib.Nat.{mul_assoc, pow-succ'}
use bounded_spending_account.Scripts.RunOp.{
  decimal_onto, decimal, text_lt, prefund_value, needs_prefund,
}

-- The number that decimal digits hold behind the digits of another.
abbrev value_onto : ℕ → List ℕ → ℕ
value_onto front [] = front
value_onto front (digit ∷ digits) = value_onto (front * 10 + digit) digits

abbrev pow10 : ℕ → ℕ
pow10 zero = 1
pow10 (suc k) = 10 * pow10 k

value_onto-decimal_onto :
    (rounds n : ℕ) (digits : List ℕ)
    → n < pow10 rounds
    → value_onto 0 (decimal_onto rounds n digits) ≡ value_onto n digits
unfolding decimal_onto
value_onto-decimal_onto zero n digits h = ap (λ k. value_onto k digits) (omega arith)
value_onto-decimal_onto (suc rounds) n digits h = elim (Bool-cases (n == 0)) [
  | inl e ↦ rw e (ap (λ k. value_onto k digits) (ground arith))
  | inr e ↦ rw e (
      value_onto-decimal_onto rounds (n / 10) ((n % 10) ∷ digits) (omega arith)
      ∙ ap (λ k. value_onto k digits) (omega arith))
]

value_onto-decimal : (n : ℕ) → n < 2 ^ 256 → value_onto 0 (decimal n) ≡ n
unfolding decimal
value_onto-decimal n h = elim (Bool-cases (n == 0)) [
  | inl e ↦ rw e (ground arith)
  | inr e ↦ rw e (value_onto-decimal_onto 78 n [] (omega arith))
]

-- A text of digits that is not 0 starts with a digit that is not 0.
abbrev IsLed : List ℕ → Type 0
IsLed [] = ⊥
IsLed (digit ∷ digits) = 1 ≤ digit

decimal_onto-IsLed :
    (rounds n : ℕ) (digits : List ℕ)
    → n < pow10 rounds
    → (1 ≤ n) ⊎ IsLed digits
    → IsLed (decimal_onto rounds n digits)
unfolding decimal_onto
decimal_onto-IsLed zero n digits h (inl some_digit) = absurd (omega arith)
decimal_onto-IsLed zero n digits h (inr led) = led
decimal_onto-IsLed (suc rounds) n digits h led = elim (Bool-cases (n == 0)) [
  | inl e ↦ rw e (elim led [ inl some_digit ↦ absurd (ground arith) | inr led ↦ led ])
  | inr e ↦ rw e (
      decimal_onto-IsLed rounds (n / 10) ((n % 10) ∷ digits) (omega arith)
        (elim (Bool-cases (leb 10 n)) [
          | inl large ↦ inl (ground arith)
          | inr small ↦ inr (ground arith)
        ]))
]

-- The texts before one of zeros are the shorter ones.
before_zeros :
    (digits : List ℕ) (n : ℕ)
    → text_lt digits (replicate n 0) ≡ true
    → (k : ℕ) × (k < n) × (digits ≡ replicate k 0)
unfolding text_lt
before_zeros [] zero h = cc
before_zeros [] (suc n) h = (0, omega arith, refl)
before_zeros (digit ∷ digits) zero h = cc
before_zeros (digit ∷ digits) (suc n) h =
    let (k, less, same) = before_zeros digits n (ground arith) in
    let zero_digit : digit ≡ 0 = ground arith in
    (suc k, omega (arith, less), rw (zero_digit, same) refl)

value_onto-zeros : (front k : ℕ) → value_onto front (replicate k 0) ≡ front * pow10 k
value_onto-zeros front zero = omega arith
value_onto-zeros front (suc k) =
    value_onto-zeros (front * 10 + 0) k
    ∙ ap (λ m. m * pow10 k) (omega arith)
    ∙ mul_assoc front 10 (pow10 k)

pow10-pow : (k : ℕ) → pow10 k ≡ 10 ^ k
pow10-pow zero = refl
pow10-pow (suc k) = ap (λ m. 10 * m) (pow10-pow k) ∙ sym (pow-succ' 10 k)

before_one :
    (digits : List ℕ) (n : ℕ)
    → IsLed digits
    → text_lt digits (1 ∷ replicate n 0) ≡ true
    → (k : ℕ) × (k < n) × (value_onto 0 digits ≡ pow10 k)
unfolding text_lt
before_one [] n led h = absurd led
before_one (digit ∷ digits) n led h =
    let (k, less, same) = before_zeros digits n (ground arith) in
    let one : digit ≡ 1 = ground arith in
    (k, less, rw (one, same) (value_onto-zeros 1 k ∙ omega arith))

prefund_text : decimal prefund_value ≡ 1 ∷ replicate 16 0
unfolding decimal decimal_onto
prefund_text = refl

-- The script sends 0.01 ETH to its account only if the account has nothing, or a power of ten in
-- wei; it leaves every other balance as it is, however small.
pub only_powers_of_ten_are_prefunded :
    (balance : ℕ)
    → balance < 2 ^ 256
    → needs_prefund balance ≡ true
    → (balance ≡ 0) ⊎ ((k : ℕ) × (k < 16) × (balance ≡ 10 ^ k))
unfolding needs_prefund decimal
only_powers_of_ten_are_prefunded balance small h = elim (Bool-cases (balance == 0)) [
  | inl e ↦ inl (ground arith)
  | inr e ↦
      let led : IsLed (decimal balance) =
        rw e (decimal_onto-IsLed 78 balance [] (omega arith) (inl (ground arith))) in
      let (k, less, same) =
        before_one (decimal balance) 16 led
          (subst (λ t. text_lt (decimal balance) t ≡ true) prefund_text h) in
      inr (k, less, sym (value_onto-decimal balance small) ∙ same ∙ pow10-pow k)
]
