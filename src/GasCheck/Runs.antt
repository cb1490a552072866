-- ===== src/GasCheck/Runs.antt =====
-- `runTest` of lib/account-abstraction/gascalc/GasChecker.ts. The answers of the chain come in the
-- order of the requests, so every promise looks for a saved estimate before the first is saved.
pub mod Success
use Prim.Native.String.{String}
use bounded_spending_account.Prelude.{
  ℕ, zero, suc, ◌+◌, ◌-◌, ◌*◌, ◌/◌, Bool, true, false, List, [], ◌∷◌, ◌++◌, Option, none, some,
  length, leb, not, ◌&&◌, ◌==◌, if◌then◌else◌,
}
use bounded_spending_account.Solidity.{Address}
use bounded_spending_account.Solidity.Bytes.{Bytes}
use bounded_spending_account.UserOp.{PackedUserOperation}
use bounded_spending_account.Client.{
  Error, Try, returned, throws, ◌>>=◌, ◌>>◌, throw_if, no_account, user_op_reverted,
  some_user_ops_failed,
}
use bounded_spending_account.Client.Interfaces.{ℤ, minus}
use bounded_spending_account.GasCheck.{
  Site, GasTestInfo, Params, Defaults, fill_info, Order, Receipt, OpEvent, user_operation, reverted,
  unrelated, Dest, self, random, to, account_exec,
}
use bounded_spending_account.GasCheck.Accounts.{Checker, create_accounts1}

-- An entry of `gasEstimatePerExec`, under its key.
pub record Estimate : Type 0 where
  pub key : Bytes
  pub title : String
  pub account_est : ℕ

-- A difference of numbers, where `undefined` makes `NaN` of it.
pub data Difference : Type 0 where
  not_a_number : Difference
  difference : ℤ → Difference

unfoldable pub gas_difference : ℕ → Option ℕ → Difference
unfolding minus
gas_difference gas_used none = not_a_number
gas_difference gas_used (some last) = difference (minus gas_used last)

pub record GasTestResult : Type 0 where
  pub title : String
  pub count : ℕ
  pub gas_used : ℕ
  pub account_est : ℕ
  pub gas_diff : Option Difference

-- The fields and the variables of the module that a test changes.
pub record Session : Type 0 where
  pub checker : Checker
  pub gas_estimate_per_exec : List Estimate
  pub last_gas_used : Option ℕ

unfoldable pub bytes_eq : Bytes → Bytes → Bool
bytes_eq [] [] = true
bytes_eq [] (y ∷ ys) = false
bytes_eq (x ∷ xs) [] = false
bytes_eq (x ∷ xs) (y ∷ ys) = x == y && bytes_eq xs ys

unfoldable pub find_estimate : Bytes → List Estimate → Option ℕ
unfolding bytes_eq
find_estimate key [] = none
find_estimate key (saved ∷ rest) =
    if bytes_eq saved.key key then some saved.account_est else find_estimate key rest

-- `Object.entries(this.accounts)[index]` for each index; taking `undefined` apart throws.
unfoldable pub first_accounts : ℕ → List Address → Try (List Address)
first_accounts zero accounts = returned []
first_accounts (suc count) [] = throws no_account
first_accounts (suc count) (account ∷ accounts) = do
  rest ← first_accounts count accounts
  returned (account ∷ rest)

-- The receipt: the first event with a revert reason is thrown, and then all of the operations
-- have to have succeeded.
unfoldable pub first_revert : List OpEvent → Try (Unit {0})
first_revert [] = returned tt
first_revert (reverted reason ∷ events) = throws (user_op_reverted reason)
first_revert (user_operation success ∷ events) = first_revert events
first_revert (unrelated ∷ events) = first_revert events

unfoldable pub count_success_ops : List OpEvent → ℕ
count_success_ops [] = 0
count_success_ops (user_operation true ∷ events) = suc (count_success_ops events)
count_success_ops (user_operation false ∷ events) = count_success_ops events
count_success_ops (reverted reason ∷ events) = count_success_ops events
count_success_ops (unrelated ∷ events) = count_success_ops events

unfoldable pub check_receipt : Receipt → List PackedUserOperation → Try (Unit {0})
unfolding first_revert count_success_ops
check_receipt receipt user_ops = do
  first_revert receipt.events
  throw_if (not (count_success_ops receipt.events == length user_ops)) some_user_ops_failed

-- The result, and the new `lastGasUsed`.
unfoldable pub result_of : GasTestInfo → ℕ → ℕ → Option ℕ → GasTestResult
unfolding gas_difference
result_of info gas_used account_est last_gas_used = record {
  title = info.title;
  count = info.count;
  gas_used = gas_used;
  account_est = account_est;
  gas_diff = if info.diff_last_gas then some (gas_difference gas_used last_gas_used) else none;
}

module _ {C : Type 0} (site : Site C) where
  -- The destination of the operation with the given index: a new one gets a wei if it has nothing.
  unfoldable pub resolve_dest : GasTestInfo → ℕ → Address → C → Try (Address × C)
  resolve_dest info index account c = elim info.dest [
    | self ↦ returned (account, c)
    | to dest ↦ returned (dest, c)
    | random ↦
        let dest = site.random_address index in
        if site.get_balance dest c == 0
        then (do sent ← site.provider.send_value dest 1 c; returned (dest, sent))
        else returned (dest, c)
  ]

  -- Each account with the call data of its operation.
  unfoldable pub exec_calls : GasTestInfo → ℕ → List Address → C → Try (List (Address × Bytes) × C)
  unfolding resolve_dest account_exec
  exec_calls info index [] c = returned ([], c)
  exec_calls info index (account ∷ accounts) c = do
    (dest, paid) ← resolve_dest info index account c
    (calls, after) ← exec_calls info (index + 1) accounts paid
    returned ((account, account_exec site dest info.dest_value info.dest_call_data) ∷ calls, after)

  -- The estimate of each operation: the saved one, or its own.
  unfoldable pub estimates : Option ℕ → List (Address × Bytes) → C → Try (List ℕ)
  estimates saved [] c = returned []
  estimates (some e) (call ∷ calls) c = do rest ← estimates (some e) calls c; returned (e ∷ rest)
  estimates none ((account, call_data) ∷ calls) c = do
    e ← site.estimate_gas site.entry_point account call_data c
    rest ← estimates none calls c
    returned (e ∷ rest)

  unfoldable pub order_of : GasTestInfo → Address → Bytes → ℕ → Order
  order_of info account call_data limit = record {
    sender = account;
    call_data = call_data;
    max_priority_fee_per_gas = info.gas_price;
    max_fee_per_gas = info.gas_price;
    call_gas_limit = limit;
    verification_gas_limit = 1000000;
    paymaster = info.paymaster;
    paymaster_verification_gas_limit = 50000;
    paymaster_post_op_gas_limit = 50000;
    pre_verification_gas = 1;
  }

  -- The signed operations, by their limits, of which there are as many.
  unfoldable pub sign_all :
      GasTestInfo → List (Address × Bytes) → List ℕ → C → Try (List PackedUserOperation)
  unfolding order_of
  sign_all info [] limits c = returned []
  sign_all info (call ∷ calls) [] c = returned []
  sign_all info ((account, call_data) ∷ calls) (limit ∷ limits) c = do
    op ← site.fill_sign_and_pack (order_of info account call_data limit) c
    ops ← sign_all info calls limits c
    returned (op ∷ ops)

  -- What the promises leave under the key of the estimate.
  unfoldable pub save_estimate : String → Bytes → Option ℕ → List ℕ → List Estimate → List Estimate
  save_estimate title key (some e) es saved = saved
  save_estimate title key none [] saved = saved
  save_estimate title key none (e ∷ es) saved =
      saved ++ (record { key = key; title = title; account_est = (site.schedule (e ∷ es)).1 } ∷ [])

  -- The operations of a test and the value of `accountEst`, with the saved estimates and the chain.
  unfoldable pub make_ops :
      GasTestInfo
      → List Address
      → List Estimate
      → C
      → Try ((List PackedUserOperation × ℕ) × List Estimate × C)
  unfolding first_accounts exec_calls find_estimate estimates sign_all save_estimate account_exec
  make_ops info accounts saved c = do
    chosen ← first_accounts info.count accounts
    (calls, ready) ← exec_calls info 0 chosen c
    let key = account_exec site 0 info.dest_value info.dest_call_data
    let found = find_estimate key saved
    es ← estimates found calls ready
    ops ← sign_all info calls (site.schedule es).0 ready
    returned ((ops, (site.schedule es).1), save_estimate info.title key found es saved, ready)

  -- `handleOps` with half as much gas again as is estimated.
  unfoldable pub send_ops : List PackedUserOperation → Address → C → Try (Receipt × C)
  send_ops ops beneficiary c = do
    gas_est ← site.estimate_handle_ops ops beneficiary c
    site.handle_ops ops beneficiary (some (gas_est * 3 / 2)) c

  -- `runTest`
  unfoldable pub run_test : Defaults → Params → Session → C → Try (GasTestResult × Session × C)
  unfolding fill_info create_accounts1 make_ops send_ops check_receipt result_of
  run_test defaults params s c = do
    let info = fill_info defaults params
    (checker, there) ← create_accounts1 site info.count s.checker c
    ((ops, account_est), saved, ready) ←
        make_ops info checker.accounts s.gas_estimate_per_exec there
    (receipt, after) ← send_ops ops info.beneficiary ready
    check_receipt receipt ops
    returned (
      result_of info receipt.gas_used account_est s.last_gas_used,
      record {
        checker = checker;
        gas_estimate_per_exec = saved;
        last_gas_used = some receipt.gas_used;
      },
      after,
    )
