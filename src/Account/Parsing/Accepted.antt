-- ===== src/Account/Parsing/Accepted.antt =====
-- Which calls `_parseSpendAmounts` of src/SpendingAccount.sol accepts, and what they spend.
use bounded_spending_account.Prelude.{
  ℕ, zero, suc, ◌+◌, ◌-◌, ◌*◌, ◌^◌, ◌≤◌, ◌<◌, ◌≡◌, ◌≢◌, ◌↔◌, refl, ap, subst, ◌∙◌, [], ◌∷◌, length,
  take, drop, get_or, ltb, leb, ◌&&◌, ◌==◌, if◌then◌else◌, arith, length-take,
}
use native.Mathlib.Nat.{sub-zero}
use bounded_spending_account.Solidity.{
  Address, Revert, invalid_target_or_selector, invalid_selector, bad_encoding, ok, revert,
}
use bounded_spending_account.Solidity.Bytes.{Bytes, from_be, from_be_onto, pow256, from_be_onto-le}
use bounded_spending_account.Solidity.Abi.{word_at, decode_address}
use bounded_spending_account.Account.{usdc_address}
use bounded_spending_account.Account.Parsing.{
  Spend, slice_loop, slice, loaded_selector, decode_transfer_amount, parse_usdc_call,
  parse_spend_amounts, transfer_selector,
}

slice_loop-cons :
    (b : ℕ) (bs : Bytes) (start count : ℕ)
    → slice_loop (b ∷ bs) (suc start) count ≡ slice_loop bs start count
unfolding slice_loop
slice_loop-cons b bs start zero = refl
slice_loop-cons b bs start (suc count) =
    ap (λ l. get_or bs start 0 ∷ l) (slice_loop-cons b bs (suc start) count)

slice_loop_self : (bs : Bytes) → slice_loop bs 0 (length bs) ≡ bs
unfolding slice_loop
slice_loop_self [] = refl
slice_loop_self (b ∷ bs) = ap (λ l. b ∷ l) (slice_loop-cons b bs 0 (length bs) ∙ slice_loop_self bs)

-- `_slice` copies the bytes from `start` on.
pub slice-eq-drop : (bs : Bytes) (start : ℕ) → slice bs start ≡ drop start bs
unfolding slice
slice-eq-drop bs zero = rw sub-zero (slice_loop_self bs)
slice-eq-drop [] (suc start) =
    let none_left : 0 - suc start ≡ 0 = omega arith in
    ap (λ k. slice_loop [] (suc start) k) none_left
slice-eq-drop (b ∷ bs) (suc start) =
    let same_count : suc (length bs) - suc start ≡ length bs - start = omega arith in
    ap (λ k. slice_loop (b ∷ bs) (suc start) k) same_count
    ∙ slice_loop-cons b bs start (length bs - start)
    ∙ slice-eq-drop bs start

-- The word at the start of an argument whose first four bytes are a nonzero selector is no address.
selector-not-address :
    (a b c d : ℕ) (bs : Bytes)
    → from_be (a ∷ b ∷ c ∷ d ∷ []) ≡ transfer_selector
    → 28 ≤ length bs
    → 2 ^ 160 ≤ word_at (a ∷ b ∷ c ∷ d ∷ bs) 0
unfolding word_at from_be from_be_onto
selector-not-address a b c d bs e n =
    let acc = (((0 + a) * 256 + b) * 256 + c) * 256 + d in
    let size : length (take 28 bs) ≡ 28 = omega (arith, length-take 28 bs) in
    let low : acc * 256 ^ 28 ≤ from_be_onto acc (take 28 bs) =
      subst (λ k. acc * pow256 k ≤ from_be_onto acc (take 28 bs)) size
        (from_be_onto-le acc (take 28 bs)) in
    omega arith

decode_transfer_amount_refuses :
    (p : Bytes)
    → 68 ≤ length p
    → loaded_selector p ≡ transfer_selector
    → decode_transfer_amount (slice p 4) ≡ revert bad_encoding
unfolding decode_transfer_amount decode_address loaded_selector
decode_transfer_amount_refuses (x0 ∷ x1 ∷ x2 ∷ x3 ∷ a ∷ b ∷ c ∷ d ∷ bs) n e =
    rw (slice-eq-drop (x0 ∷ x1 ∷ x2 ∷ x3 ∷ a ∷ b ∷ c ∷ d ∷ bs) 4)
      (ground (arith, selector-not-address a b c d bs e (omega arith)))
decode_transfer_amount_refuses p n e = absurd (omega arith)

-- The error with which a call of the token ends. The four bytes that are compared with the selector
-- of `transfer` are the first of the recipient's word, which then is no address.
pub usdc_refusal : ℕ → Bytes → Revert
usdc_refusal value p =
    if ltb 0 value
    then invalid_target_or_selector
    else if leb 68 (length p) && (loaded_selector p == transfer_selector)
    then bad_encoding
    else invalid_selector

pub parse_usdc_call_reverts :
    (value : ℕ) (p : Bytes) → parse_usdc_call value p ≡ revert (usdc_refusal value p)
unfolding parse_usdc_call usdc_refusal
parse_usdc_call_reverts value p = ground (arith, decode_transfer_amount_refuses p)

-- A call is accepted exactly if its target is not the token and its value is above 0, and then it
-- spends its value in ETH, whatever its data.
pub parse_spend_amounts_iff :
    (target : Address) (value : ℕ) (p : Bytes) (spend : Spend)
    → (parse_spend_amounts target value p ≡ ok spend)
      ↔ ((target ≢ usdc_address) × (0 < value) × (spend ≡ record { eth = value; usdc = 0 }))
unfolding parse_spend_amounts
parse_spend_amounts_iff target value p spend = (
  ground (arith, parse_usdc_call_reverts value p),
  λ h. ground (arith, parse_usdc_call_reverts value p, h.0, h.1, h.2),
)
