-- ===== src/GasCheck/Report/Rows.antt =====
-- What the rows of a gas report of lib/account-abstraction/gascalc measure.
use bounded_spending_account.Prelude.{
  ℕ, suc, ◌+◌, ◌≡◌, refl, ap, sym, ◌∙◌, arith, true, false, List, [], ◌∷◌, ◌++◌, none, some,
}
use bounded_spending_account.Client.{returned, >>=-eq-returned, returned-injective}
use bounded_spending_account.Client.Interfaces.{ℤ, pos, negsuc, minus}
use bounded_spending_account.GasCheck.{Site, Params, Defaults, fill_info}
use bounded_spending_account.GasCheck.Runs.{
  difference, gas_difference, GasTestResult, Session, result_of, run_test,
}
use bounded_spending_account.GasCheck.Runs.Success.{SignsAll, run_test-Tested}
use bounded_spending_account.GasCheck.Report.{
  Cell, blank, text, number, integer, less, difference_cell, overhead_cell, row_of, add_row,
  add_test_row, add_test_rows,
}

-- `b` is `a` and the integer.
abbrev pub Exceeds : ℕ → ℤ → ℕ → Type 0
Exceeds a (pos n) b = b ≡ a + n
Exceeds a (negsuc n) b = a ≡ b + suc n

minus-Exceeds : (a b : ℕ) → Exceeds a (minus b a) b
unfolding minus
minus-Exceeds a b = ground arith

less-Exceeds : (a m b : ℕ) (d : ℤ) → Exceeds a d b → Exceeds (a + m) (less d m) b
unfolding less minus
less-Exceeds a m b (pos n) h = ground arith
less-Exceeds a m b (negsuc n) h = omega (arith, h)

plain_row :
    (res : GasTestResult)
    → res.gas_diff ≡ none
    → row_of res ≡ text res.title ∷ number res.count ∷ number res.gas_used ∷ blank ∷ blank ∷ []
unfolding row_of
plain_row res h = rw h refl

diff_row :
    (res : GasTestResult) {d : ℤ}
    → res.gas_diff ≡ some (difference d)
    → row_of res
      ≡ text res.title
        ∷ number res.count
        ∷ blank
        ∷ integer d
        ∷ integer (less d res.account_est)
        ∷ []
unfolding row_of difference_cell overhead_cell
diff_row res h = rw h refl

module _ {C : Type 0} (site : Site C) where
  add_test_row-eq-returned :
      (defaults : Defaults) (p : Params) (rows : List (List Cell)) (s : Session) (c : C)
      {rows' : List (List Cell)} {s' : Session} {c' : C}
      → add_test_row site defaults p (rows, s) c ≡ returned ((rows', s'), c')
      → (res : GasTestResult) × (run_test site defaults p s c ≡ returned (res, s', c'))
        × (rows' ≡ rows ++ (row_of res ∷ []))
  unfolding add_test_row add_row
  add_test_row-eq-returned defaults p rows s c h =
      let ((res, session, after), runs, h1) = >>=-eq-returned (run_test site defaults p s c) _ h in
      let e = returned-injective h1 in
      (res, runs ∙ ap (λ x. returned (res, x.0.1, x.1)) e, sym (ap (λ x. x.0.0) e))

  -- Two rows in a row.
  add_two_rows :
      (defaults : Defaults) (p q : Params) (rows : List (List Cell)) (s : Session) (c : C)
      {rows' : List (List Cell)} {s' : Session} {c' : C}
      → add_test_rows site defaults (p ∷ q ∷ []) (rows, s) c ≡ returned ((rows', s'), c')
      → (res res' : GasTestResult) × (s1 : Session) × (c1 : C) × (run_test site defaults p s c
          ≡ returned (res, s1, c1))
        × (run_test site defaults q s1 c1 ≡ returned (res', s', c'))
        × (rows' ≡ (rows ++ (row_of res ∷ [])) ++ (row_of res' ∷ []))
  unfolding add_test_rows
  add_two_rows defaults p q rows s c h =
      let (((rows1, s1), c1), first, h1) =
        >>=-eq-returned (add_test_row site defaults p (rows, s) c) _ h in
      let (((rows2, s2), c2), second, h2) =
        >>=-eq-returned (add_test_row site defaults q (rows1, s1) c1) _ h1 in
      let (res, runs, grows) = add_test_row-eq-returned defaults p rows s c first in
      let (res', runs', grows') = add_test_row-eq-returned defaults q rows1 s1 c1 second in
      let e = returned-injective h2 in
      (
        res,
        res',
        s1,
        c1,
        runs,
        runs' ∙ ap (λ x. returned (res', x.0.1, x.1)) e,
        sym (ap (λ x. x.0.0) e) ∙ grows' ∙ ap (λ r. r ++ (row_of res' ∷ [])) grows,
      )

  -- A test without a difference, and one with it after that, add two rows: the gas of the first
  -- bundle; and, with the total left out, the gas that the second has used beyond the first, and
  -- that difference less the estimate of one call. The gas of the second bundle is that of the
  -- first and the difference, and also that of the first, the estimate and the overhead.
  pub second_row_is_the_marginal_cost :
      (signs_all : SignsAll site) (defaults : Defaults) (p q : Params) (rows : List (List Cell))
      (s : Session) (c : C) {rows' : List (List Cell)} {s' : Session} {c' : C}
      → p.diff_last_gas ≡ false
      → q.diff_last_gas ≡ true
      → add_test_rows site defaults (p ∷ q ∷ []) (rows, s) c ≡ returned ((rows', s'), c')
      → (res res' : GasTestResult) × (s1 : Session) × (c1 : C) × (d overhead : ℤ) × (run_test site
            defaults p s c
          ≡ returned (res, s1, c1))
        × (run_test site defaults q s1 c1 ≡ returned (res', s', c'))
        × (rows'
            ≡ (rows
                ++ ((text p.title ∷ number p.count ∷ number res.gas_used ∷ blank ∷ blank ∷ [])
                    ∷ []))
              ++ ((text q.title ∷ number q.count ∷ blank ∷ integer d ∷ integer overhead ∷ []) ∷ []))
        × Exceeds res.gas_used d res'.gas_used
        × Exceeds (res.gas_used + res'.account_est) overhead res'.gas_used
  unfolding result_of gas_difference fill_info
  second_row_is_the_marginal_cost signs_all defaults p q rows s c plain diff h =
      let (res, res', s1, c1, runs, runs', grows) = add_two_rows defaults p q rows s c h in
      let t = run_test-Tested site signs_all defaults p s c runs in
      let t' = run_test-Tested site signs_all defaults q s1 c1 runs' in
      let d = minus res'.gas_used res.gas_used in
      let none_given : res.gas_diff ≡ none = ap (λ x. x.gas_diff) t.result ∙ rw plain refl in
      let last : s1.last_gas_used ≡ some res.gas_used =
        t.remembered ∙ ap (λ x. some x.gas_used) (sym t.result) in
      let given : res'.gas_diff ≡ some (difference d) =
        ap (λ x. x.gas_diff) t'.result
        ∙ rw (diff, last)
            (ap (λ n. some (difference (minus n res.gas_used)))
              (ap (λ x. x.gas_used) (sym t'.result))) in
      (
        res,
        res',
        s1,
        c1,
        d,
        less d res'.account_est,
        runs,
        runs',
        grows
            ∙ rw (plain_row res none_given, diff_row res' given)
                (rw
                  (
                    ap (λ x. x.title) t.result,
                    ap (λ x. x.count) t.result,
                    ap (λ x. x.title) t'.result,
                    ap (λ x. x.count) t'.result,
                  )
                  refl),
        minus-Exceeds res.gas_used res'.gas_used,
        less-Exceeds res.gas_used res'.account_est res'.gas_used d
            (minus-Exceeds res.gas_used res'.gas_used),
      )
