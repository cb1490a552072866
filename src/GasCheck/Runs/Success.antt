-- ===== src/GasCheck/Runs/Success.antt =====
-- What a test of lib/account-abstraction/gascalc/GasChecker.ts that returns has seen.
use bounded_spending_account.Prelude.{
  ℕ, zero, suc, ◌+◌, ◌*◌, ◌/◌, ◌≡◌, refl, ap, sym, ◌∙◌, arith, not, List, [], ◌∷◌, Option, none,
  some, length, ◌==◌,
}
use bounded_spending_account.Solidity.{Address}
use bounded_spending_account.Solidity.Bytes.{Bytes}
use bounded_spending_account.UserOp.{PackedUserOperation}
use bounded_spending_account.Client.{
  returned, throw_if, >>=-eq-returned, returned-injective, some_user_ops_failed,
}
use bounded_spending_account.GasCheck.{
  Site, Params, Defaults, GasTestInfo, account_exec, fill_info, Receipt, OpEvent, user_operation,
  reverted, unrelated,
}
use bounded_spending_account.GasCheck.Accounts.{create_accounts1}
use bounded_spending_account.GasCheck.Runs.{
  Estimate, GasTestResult, Session, first_accounts, first_revert, count_success_ops, check_receipt,
  result_of, exec_calls, estimates, sign_all, make_ops, send_ops, run_test, find_estimate,
  resolve_dest, order_of,
}

-- No event has a revert reason.
abbrev pub NoneReverted : List OpEvent → Type 0
NoneReverted [] = Unit
NoneReverted (reverted reason ∷ events) = ⊥
NoneReverted (user_operation success ∷ events) = NoneReverted events
NoneReverted (unrelated ∷ events) = NoneReverted events

first_revert-NoneReverted :
    (events : List OpEvent) {done : Unit {0}}
    → first_revert events ≡ returned done
    → NoneReverted events
unfolding first_revert
first_revert-NoneReverted [] h = tt
first_revert-NoneReverted (reverted reason ∷ events) h = cc
first_revert-NoneReverted (user_operation success ∷ events) h = first_revert-NoneReverted events h
first_revert-NoneReverted (unrelated ∷ events) h = first_revert-NoneReverted events h

check_receipt-eq-returned :
    (receipt : Receipt) (ops : List PackedUserOperation) {done : Unit {0}}
    → check_receipt receipt ops ≡ returned done
    → NoneReverted receipt.events × (count_success_ops receipt.events ≡ length ops)
unfolding check_receipt
check_receipt-eq-returned receipt ops h =
    let (_, none_reverted, h1) = >>=-eq-returned (first_revert receipt.events) _ h in
    let all = count_success_ops receipt.events == length ops in
    (
      first_revert-NoneReverted receipt.events none_reverted,
      equal (count_success_ops receipt.events) (length ops) h1,
    )
  where
    equal :
        (a b : ℕ) {done : Unit {0}}
        → throw_if (not (a == b)) some_user_ops_failed ≡ returned done
        → a ≡ b
    equal a b h = ground arith

module _ {C : Type 0} (site : Site C) where
  -- The schedule signs every operation.
  abbrev pub SignsAll : Type 0
  SignsAll = (es : List ℕ) → length (site.schedule es).0 ≡ length es

  length-first_accounts :
      (count : ℕ) (accounts : List Address) {chosen : List Address}
      → first_accounts count accounts ≡ returned chosen
      → length chosen ≡ count
  unfolding first_accounts
  length-first_accounts zero accounts h = rw (← returned-injective h) refl
  length-first_accounts (suc count) [] h = cc
  length-first_accounts (suc count) (account ∷ accounts) h =
      let (rest, picks, h1) = >>=-eq-returned (first_accounts count accounts) _ h in
      rw (← returned-injective h1) (ap suc (length-first_accounts count accounts picks))

  length-exec_calls :
      (info : GasTestInfo) (index : ℕ) (accounts : List Address) (c : C)
      {calls : List (Address × Bytes)} {c' : C}
      → exec_calls site info index accounts c ≡ returned (calls, c')
      → length calls ≡ length accounts
  unfolding exec_calls
  length-exec_calls info index [] c h = rw (← ap (λ x. x.0) (returned-injective h)) refl
  length-exec_calls info index (account ∷ accounts) c h =
      let ((dest, paid), _, h1) = >>=-eq-returned (resolve_dest site info index account c) _ h in
      let ((calls, after), rest, h2) =
        >>=-eq-returned (exec_calls site info (index + 1) accounts paid) _ h1 in
      rw (← ap (λ x. x.0) (returned-injective h2))
        (ap suc (length-exec_calls info (index + 1) accounts paid rest))

  length-estimates :
      (saved : Option ℕ) (calls : List (Address × Bytes)) (c : C) {es : List ℕ}
      → estimates site saved calls c ≡ returned es
      → length es ≡ length calls
  unfolding estimates
  length-estimates saved [] c h = rw (← returned-injective h) refl
  length-estimates (some e) (call ∷ calls) c h =
      let (rest, goes, h1) = >>=-eq-returned (estimates site (some e) calls c) _ h in
      rw (← returned-injective h1) (ap suc (length-estimates (some e) calls c goes))
  length-estimates none ((account, call_data) ∷ calls) c h =
      let (e, _, h1) =
        >>=-eq-returned (site.estimate_gas site.entry_point account call_data c) _ h in
      let (rest, goes, h2) = >>=-eq-returned (estimates site none calls c) _ h1 in
      rw (← returned-injective h2) (ap suc (length-estimates none calls c goes))

  length-sign_all :
      (info : GasTestInfo) (calls : List (Address × Bytes)) (limits : List ℕ) (c : C)
      {ops : List PackedUserOperation}
      → length limits ≡ length calls
      → sign_all site info calls limits c ≡ returned ops
      → length ops ≡ length calls
  unfolding sign_all
  length-sign_all info [] limits c same h = rw (← returned-injective h) refl
  length-sign_all info (call ∷ calls) [] c same h = absurd (omega (arith, same))
  length-sign_all info ((account, call_data) ∷ calls) (limit ∷ limits) c same h =
      let (op, _, h1) =
        >>=-eq-returned (site.fill_sign_and_pack (order_of site info account call_data limit) c) _
          h in
      let (rest, goes, h2) = >>=-eq-returned (sign_all site info calls limits c) _ h1 in
      rw (← returned-injective h2)
        (ap suc (length-sign_all info calls limits c (omega (arith, same)) goes))

  length-make_ops :
      (signs_all : SignsAll) (info : GasTestInfo) (accounts : List Address) (saved : List Estimate)
      (c : C) {ops : List PackedUserOperation} {est : ℕ} {saved' : List Estimate} {c' : C}
      → make_ops site info accounts saved c ≡ returned ((ops, est), saved', c')
      → length ops ≡ info.count
  unfolding make_ops
  length-make_ops signs_all info accounts saved c h =
      let (chosen, picks, h1) = >>=-eq-returned (first_accounts info.count accounts) _ h in
      let ((calls, ready), fills, h2) = >>=-eq-returned (exec_calls site info 0 chosen c) _ h1 in
      let found = find_estimate (account_exec site 0 info.dest_value info.dest_call_data) saved in
      let (es, guesses, h3) = >>=-eq-returned (estimates site found calls ready) _ h2 in
      let (signed, signs, h4) =
        >>=-eq-returned (sign_all site info calls (site.schedule es).0 ready) _ h3 in
      let several = length-estimates found calls ready guesses in
      ap (λ x. length x.0.0) (sym (returned-injective h4))
      ∙ length-sign_all info calls (site.schedule es).0 ready (signs_all es ∙ several) signs
      ∙ length-exec_calls info 0 chosen c fills
      ∙ length-first_accounts info.count accounts picks

  -- What a test that returns has done.
  pub record Tested (defaults : Defaults) (params : Params) (s s' : Session) (c' : C)
      (res : GasTestResult) : Type 0 where
    pub ops : List PackedUserOperation
    pub receipt : Receipt
    pub gas_limit : ℕ
    pub ready : C
    pub sent :
        site.handle_ops ops (fill_info defaults params).beneficiary (some gas_limit) ready
        ≡ returned (receipt, c')
    pub as_many : length ops ≡ params.count
    pub none_reverted : NoneReverted receipt.events
    pub all_succeeded : count_success_ops receipt.events ≡ params.count
    pub result :
        res ≡ result_of (fill_info defaults params) receipt.gas_used res.account_est s.last_gas_used
    pub remembered : s'.last_gas_used ≡ some receipt.gas_used

  pub run_test-Tested :
      (signs_all : SignsAll) (defaults : Defaults) (params : Params) (s : Session) (c : C)
      {res : GasTestResult} {s' : Session} {c' : C}
      → run_test site defaults params s c ≡ returned (res, s', c')
      → Tested defaults params s s' c' res
  unfolding run_test fill_info send_ops result_of
  run_test-Tested signs_all defaults params s c {res} {s'} {c'} h =
      let info = fill_info defaults params in
      let ((checker, there), _, h1) =
        >>=-eq-returned (create_accounts1 site info.count s.checker c) _ h in
      let (((ops, est), saved, ready), makes, h2) =
        >>=-eq-returned (make_ops site info checker.accounts s.gas_estimate_per_exec there) _ h1 in
      let ((receipt, after), sends, h3) =
        >>=-eq-returned (send_ops site ops info.beneficiary ready) _ h2 in
      let (gas_est, _, sends1) =
        >>=-eq-returned (site.estimate_handle_ops ops info.beneficiary ready) _ sends in
      let (done, checks, h4) = >>=-eq-returned (check_receipt receipt ops) _ h3 in
      let e = returned-injective h4 in
      let (none_reverted, all) = check_receipt-eq-returned receipt ops checks in
      let many =
        length-make_ops signs_all info checker.accounts s.gas_estimate_per_exec there makes in
      let res_eq = ap (λ x. x.0) e in
      record {
        ops = ops;
        receipt = receipt;
        gas_limit = gas_est * 3 / 2;
        ready = ready;
        sent = sends1 ∙ ap (λ x. returned (receipt, x)) (ap (λ x. x.2) e);
        as_many = many;
        none_reverted = none_reverted;
        all_succeeded = all ∙ many;
        result =
            sym res_eq
            ∙ ap (λ n. result_of info receipt.gas_used n s.last_gas_used)
                (ap (λ x. x.account_est) res_eq);
        remembered = ap (λ x. x.last_gas_used) (sym (ap (λ x. x.1) e));
      }
