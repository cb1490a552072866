-- ===== src/Account/Evm/Solvent.antt =====
-- Whatever the code that the account of src/SpendingAccount.sol calls: ETH that it sends is recorded,
-- but for the prefunds that the entry point asks for.
use bounded_spending_account.Prelude.{
  ℕ, zero, suc, ◌+◌, ◌≤◌, ◌≡◌, ◌≢◌, ap, sym, ◌∙◌, subst, arith, Bool, true, false, Option, none,
  some, ltb, ◌==◌, ◌||◌, Bool-cases, Option-cases, inl, inr,
}
use bounded_spending_account.Solidity.{Address, ok}
use bounded_spending_account.Solidity.Laws.{>>=-eq-ok, ok-injective}
use bounded_spending_account.Solidity.Bytes.{Bytes}
use bounded_spending_account.Account.{Config}
use bounded_spending_account.Account.World.{World, Chain, move_eth}
use bounded_spending_account.Account.Entry.{validate_user_op, receive}
use bounded_spending_account.Account.Messages.{
  Message, validate_user_op_call, execute_call, execute_batch_call, pay_for_gas_in_usdc_call,
  receive_call, add_deposit_call, request_emergency_withdraw_call, emergency_withdraw_call, handle,
}
use bounded_spending_account.Account.Evm.{
  Code, fail, return, look, write, pay, attempt, call_account, run, evm,
}
use bounded_spending_account.Account.Evm.Isolated.{Result-cases, run-reverted, run-handled}
use bounded_spending_account.Account.Evm.Ledger.{
  eth_recorded, books, IsSolvent, execute-books, execute_batch-books, pay_for_gas_in_usdc-books,
  add_deposit-books, emergency_withdraw-books, request_emergency_withdraw-books,
  validate_user_op-books,
}

-- A message that asks for no prefund; deposits come from others.
abbrev pub AsksNoPrefund : Config → Address → Message → Type 0
AsksNoPrefund c sender (validate_user_op_call basefee op user_op_hash missing) = missing ≡ 0
AsksNoPrefund c sender (add_deposit_call value) = sender ≢ c.this
AsksNoPrefund c sender _ = Unit

-- Code that sends no other messages.
abbrev pub SendsNoOther : {Rest : Type 0} → Config → Code Rest → Type 0
SendsNoOther c fail = Unit
SendsNoOther c (return answer) = Unit
SendsNoOther c (look next) = (w : World _) → SendsNoOther c (next w)
SendsNoOther c (write change next) = SendsNoOther c next
SendsNoOther c (pay from to value next) = SendsNoOther c next
SendsNoOther c (attempt body next) =
    SendsNoOther c body × ((answer : Option Bytes) → SendsNoOther c (next answer))
SendsNoOther c (call_account sender message next) =
    AsksNoPrefund c sender message × ((succeeded : Bool) → SendsNoOther c (next succeeded))

-- A transfer that the account does not send leaves it no less.
move_eth-other :
    (this from to : Address) (value : ℕ) (eth : Address → ℕ)
    → (from == this) ≡ false
    → eth this ≤ move_eth from to value eth this
unfolding move_eth
move_eth-other this from to value eth h = ground arith

move_eth-paid :
    (this from : Address) (value : ℕ) (eth : Address → ℕ)
    → eth this ≤ move_eth from this value eth this
unfolding move_eth
move_eth-paid this from value eth = ground arith

move_eth-deposit :
    (this from : Address) (value : ℕ) (eth : Address → ℕ)
    → from ≢ this
    → eth this + value ≤ move_eth from this value eth this
unfolding move_eth
move_eth-deposit this from value eth other = ground arith

module _ {Rest : Type 0} (chain : Chain Rest) (c : Config) (solvent : IsSolvent chain c) where
  handle-books :
      (now : ℕ) (sender : Address) (message : Message) (w : World Rest) {w' : World Rest}
      → AsksNoPrefund c sender message
      → handle chain c now sender message w ≡ ok w'
      → books c w ≤ books c w'
  unfolding handle receive
  handle-books now sender (validate_user_op_call basefee op user_op_hash missing) w no_prefund h =
      let validates = validate_user_op chain c now basefee sender op user_op_hash missing w in
      let ((data_word, v), validated_to, e) = >>=-eq-ok validates _ h in
      let validated =
        subst
          (λ m. validate_user_op chain c now basefee sender op user_op_hash m w ≡ ok (data_word, v))
          no_prefund validated_to in
      rw (← ok-injective e)
        (validate_user_op-books chain c solvent now basefee sender op user_op_hash w validated)
  handle-books now sender (execute_call target value payload) w free h =
      execute-books chain c solvent now sender target value payload w h
  handle-books now sender (execute_batch_call calls) w free h =
      execute_batch-books chain c solvent now sender calls w h
  handle-books now sender (pay_for_gas_in_usdc_call gas gas_then amount) w free h =
      pay_for_gas_in_usdc-books chain c solvent now gas gas_then sender amount w h
  handle-books now sender (receive_call value) w free h =
      rw (← ok-injective h) (omega (arith, move_eth-paid c.this sender value w.eth))
  handle-books now sender (add_deposit_call value) w other h = omega (
    arith,
    add_deposit-books chain c solvent value _ h,
    move_eth-deposit c.this sender value w.eth other,
  )
  handle-books now sender request_emergency_withdraw_call w free h =
      request_emergency_withdraw-books chain c solvent now sender w h
  handle-books now sender (emergency_withdraw_call recipient) w free h =
      emergency_withdraw-books chain c solvent now sender recipient w h

module _ {Rest : Type 0} (c : Config) (now : ℕ) where
  run-books :
      (inner : Chain Rest)
      → IsSolvent inner c
      → (code : Code Rest) (w : World Rest) {w' : World Rest} {answer : Bytes} → SendsNoOther c code
      → run c now inner code w ≡ some (w', answer)
      → books c w ≤ books c w'
  unfolding run
  run-books inner solvent fail w obeys h = cc
  run-books inner solvent (return answer) w {w'} obeys h =
      subst (λ x. books c w ≤ books c x) (ap (λ o. elim o [ none ↦ w | some (v, _) ↦ v ]) h)
        (omega arith)
  run-books inner solvent (look next) w obeys h = run-books inner solvent (next w) w (obeys w) h
  run-books inner solvent (write change next) w obeys h = run-books inner solvent next _ obeys h
  run-books inner solvent (pay from to value next) w obeys h =
      elim (Bool-cases (from == c.this || ltb (w.eth from) value)) [
        | inl e ↦ absurd (cc (rw e at h))
        | inr e ↦ omega (
          arith,
          run-books inner solvent next _ obeys (rw e at h),
          move_eth-other c.this from to value w.eth (ground arith),
        )
      ]
  run-books inner solvent (attempt body next) w (first, rest) h =
      elim (Option-cases (run c now inner body w)) [
        | inl e ↦ run-books inner solvent (next none) w (rest none) (rw e at h)
        | inr ((v, answer), e) ↦ omega (
          arith,
          run-books inner solvent body w first e,
          run-books inner solvent (next (some answer)) v (rest (some answer)) (rw e at h),
        )
      ]
  run-books inner solvent (call_account sender message next) w (asks, rest) h =
      elim (Result-cases (handle inner c now sender message w)) [
        | inl (reason, e) ↦
            run-books inner solvent (next false) w (rest false)
              (sym (run-reverted c now inner sender message next w e) ∙ h)
        | inr (v, e) ↦ omega (
          arith,
          handle-books inner c solvent now sender message w asks e,
          run-books inner solvent (next true) v (rest true)
              (sym (run-handled c now inner sender message next w e) ∙ h),
        )
      ]

  module _ (base : Chain Rest) (code : Address → ℕ → Bytes → Code Rest)
      (obeys : (target : Address) (value : ℕ) (payload : Bytes)
        → SendsNoOther c (code target value payload)) where
    evm-IsSolvent : (depth : ℕ) → IsSolvent (evm c now base code depth) c
    unfolding evm
    evm-IsSolvent zero = record { keeps = λ target value payload w h. absurd (cc h) }
    evm-IsSolvent (suc depth) = record {
      keeps = λ target value payload w h.
          run-books (evm c now base code depth) (evm-IsSolvent depth) (code target value payload) w
            (obeys target value payload) h;
    }

    -- Where the entry point asks for no prefund, all ETH that leaves the account is recorded: after
    -- any message that is handled, whatever code the account's calls have run and however often it
    -- has called the account again, the balance has fallen by at most what the logs have gained as
    -- spent or withdrawn.
    pub eth_that_leaves_is_recorded :
        (depth : ℕ) (sender : Address) (message : Message) (w : World Rest) {w' : World Rest}
        → AsksNoPrefund c sender message
        → handle (evm c now base code depth) c now sender message w ≡ ok w'
        → w.eth c.this + eth_recorded w.account.logs ≤ w'.eth c.this + eth_recorded w'.account.logs
    eth_that_leaves_is_recorded depth sender message w asks h =
        handle-books (evm c now base code depth) c (evm-IsSolvent depth) now sender message w asks h
