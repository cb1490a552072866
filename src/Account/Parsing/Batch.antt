-- ===== src/Account/Parsing/Batch.antt =====
-- The totals of a batch in src/SpendingAccount.sol: what a batch must be to be accepted, and that
-- the order of its calls does not matter.
use mathlib.Core.List.{Perm, Permᴰ}
use mathlib.Core.Logic.{∥∥₁_elim}
use bounded_spending_account.Prelude.{
  ℕ, ◌+◌, ◌<◌, ◌≡◌, ◌≢◌, ◌↔◌, refl, List, [], ◌∷◌, arith, ap, ap₂, subst, sym, ◌∙◌,
}
use bounded_spending_account.Solidity.{word_mod, Result, ok, ◌>>=◌, checked_add}
use bounded_spending_account.Solidity.Laws.{
  >>=-eq-ok, checked_add-eq-ok, checked_add-lt, ok-injective,
}
use bounded_spending_account.Solidity.Abi.{Call}
use bounded_spending_account.Account.{usdc_address}
use bounded_spending_account.Account.Parsing.{Spend, parse_spend_amounts, add_up, nothing}
use bounded_spending_account.Account.Parsing.Accepted.{parse_spend_amounts_iff}

-- Every call sends some ETH, and none is a call of the token.
abbrev pub AllSends : List Call → Type 0
AllSends [] = Unit
AllSends (call ∷ calls) = (call.target ≢ usdc_address) × (0 < call.value) × AllSends calls

unfoldable pub total_value : List Call → ℕ
total_value [] = 0
total_value (call ∷ calls) = call.value + total_value calls

abbrev sent : ℕ → Spend
sent value = record { eth = value; usdc = 0 }

-- One round of the loop, for a call that is accepted.
add_up_round :
    (call : Call) (calls : List Call) (start : ℕ)
    → parse_spend_amounts call.target call.value call.payload ≡ ok (sent call.value)
    → add_up (call ∷ calls) (sent start)
      ≡ (checked_add start call.value >>= λ eth. add_up calls (sent eth))
unfolding add_up checked_add
add_up_round call calls start parses = rw parses

-- An accepted batch is one of sends, the values of which add up without overflow.
add_up_sends :
    (calls : List Call) (start : ℕ) {total : Spend}
    → start < word_mod
    → add_up calls (sent start) ≡ ok total
    → AllSends calls
      × (start + total_value calls < word_mod)
      × (total ≡ sent (start + total_value calls))
unfolding add_up total_value
add_up_sends [] start b h = (tt, omega arith, sym (ok-injective h) ∙ ap sent (omega arith))
add_up_sends (call ∷ calls) start b h =
    let parse = parse_spend_amounts call.target call.value call.payload in
    let (spend, parses, _) = >>=-eq-ok parse _ h in
    let accepts = parse_spend_amounts_iff call.target call.value call.payload spend in
    let (other, some_value, spends) = accepts.0 parses in
    let round = add_up_round call calls start (parses ∙ ap (λ x. ok x) spends) in
    let (eth, adds, h1) = >>=-eq-ok (checked_add start call.value) _ (sym round ∙ h) in
    let (sum, fits) = checked_add-eq-ok start call.value adds in
    let (sends, rest_fits, totals) = add_up_sends calls eth (omega arith) h1 in
    ((other, some_value, sends), omega arith, totals ∙ ap sent (omega arith))

add_up_fits :
    (calls : List Call) (start : ℕ)
    → AllSends calls
    → start + total_value calls < word_mod
    → add_up calls (sent start) ≡ ok (sent (start + total_value calls))
unfolding add_up total_value
add_up_fits [] start sends b = ap (λ k. ok (sent k)) (omega arith)
add_up_fits (call ∷ calls) start (other, some_value, sends) b =
    let accepts = parse_spend_amounts_iff call.target call.value call.payload (sent call.value) in
    let round = add_up_round call calls start (accepts.1 (other, some_value, refl)) in
    rw (round, checked_add-lt start call.value (omega arith))
      (add_up_fits calls (start + call.value) sends (omega arith)
        ∙ ap (λ k. ok (sent k)) (omega arith))

-- A batch is accepted exactly if each of its calls sends some ETH to a target other than the token,
-- and the sum of the values is below 2^256; it then spends that sum, and no USDC.
pub add_up_iff :
    (calls : List Call) (total : Spend)
    → (add_up calls nothing ≡ ok total) ↔ (
        AllSends calls
        × (total_value calls < word_mod)
        × (total ≡ record { eth = total_value calls; usdc = 0 }))
add_up_iff calls total = (
  λ h.
      let (sends, fits, totals) = add_up_sends calls 0 (omega arith) h in
      (sends, omega arith, totals ∙ ap sent (omega arith)),
  λ h. add_up_fits calls 0 h.0 (omega arith) ∙ ap (λ x. ok x) (ap sent (omega arith) ∙ sym h.2),
)

Spend-set : IsSet Spend
Spend-set = hlevel

result_set : IsSet (Result Spend)
result_set = hlevel Spend-set

permᴰ-sends :
    {calls calls' : List Call}
    → Permᴰ calls calls'
    → AllSends calls
    → AllSends calls' × (total_value calls' ≡ total_value calls)
unfolding total_value
permᴰ-sends Permᴰ.nil h = (tt, refl)
permᴰ-sends (Permᴰ.cons {a = a} {b = b} e p) h =
    let (sends, same) = permᴰ-sends p h.2 in
    (
      (subst (λ x. x.target ≢ usdc_address) e h.0, subst (λ x. 0 < x.value) e h.1, sends),
      ap₂ (λ (x : Call) (n : ℕ). x.value + n) (sym e) same,
    )
permᴰ-sends (Permᴰ.swap {a = a} {b = b} {a' = a'} {b' = b'} {l = l} e f) (p, q, (p', q', sends)) = (
  (
    subst (λ x. x.target ≢ usdc_address) f p',
    subst (λ x. 0 < x.value) f q',
    (subst (λ x. x.target ≢ usdc_address) e p, subst (λ x. 0 < x.value) e q, sends),
  ),
  omega (arith, ap (λ (x : Call). x.value) e, ap (λ (x : Call). x.value) f),
)
permᴰ-sends (Permᴰ.trans p q) h =
    let (sends, same) = permᴰ-sends p h in
    let (sends', same') = permᴰ-sends q sends in (sends', same' ∙ same)

-- The order of the calls of a batch does not matter to what it may spend: a batch with the same
-- calls in another order is accepted too, with the same totals.
pub batch_order_is_irrelevant :
    (calls calls' : List Call) (total : Spend)
    → Perm calls calls'
    → add_up calls nothing ≡ ok total
    → add_up calls' nothing ≡ ok total
batch_order_is_irrelevant calls calls' total p h =
    let (sends, fits, totals) = (add_up_iff calls total).0 h in
    ∥∥₁_elim p (result_set _ _) (λ q.
      let (sends', same) = permᴰ-sends q sends in
      (add_up_iff calls' total).1 (sends', omega arith, totals ∙ ap sent (sym same)))
