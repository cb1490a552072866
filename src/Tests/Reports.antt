-- ===== src/Tests/Reports.antt =====
-- Tests of the gas reports in lib/account-abstraction/gascalc, and of src/runop.ts there.
use bounded_spending_account.Prelude.{
  ℕ, ◌+◌, ◌*◌, ◌^◌, ◌≡◌, ◌⊎◌, ◌<◌, ◌≤◌, refl, arith, Bool, true, false, length, List, [], ◌∷◌, none,
  some, replicate, get_or, leb, ◌==◌, ◌||◌, if◌then◌else◌,
}
use bounded_spending_account.Solidity.Bytes.{to_be, to_be_onto, from_be}
use bounded_spending_account.Client.{returned}
use bounded_spending_account.Client.Interfaces.{ℤ, pos, minus}
use bounded_spending_account.Client.Operation.{
  pad16, pack_account_gas_limits, pack_paymaster_data, has_paymaster, packed_paymaster,
  pack_user_op,
}
use bounded_spending_account.Client.Deployer.{
  Provider, contract_address, get_deployed_address, is_factory_deployed, deploy_factory, chosen_gas,
  deploy_code, deploy,
}
use bounded_spending_account.GasCheck.{
  Site, user_operation, range, range_from, default_gas_test_info, fill_info, account_exec,
  account_init_code, Defaults,
}
use bounded_spending_account.GasCheck.Accounts.{
  Checker, has, insert, note, factory_init, creation_op, creation_ops, fund, each_account,
  create_accounts1,
}
use bounded_spending_account.GasCheck.Signing.{
  Task, Moves, waiting, signing, Reach, start, later, here, there, arrive_free, arrive_busy,
}
use bounded_spending_account.GasCheck.Signing.Exclusion.{
  signing_count, as_count, one_signs_at_a_time, waits_left, CanMove, promises_end,
}
use bounded_spending_account.GasCheck.Runs.{
  GasTestResult, Session, bytes_eq, find_estimate, first_accounts, first_revert, count_success_ops,
  check_receipt, gas_difference, result_of, resolve_dest, exec_calls, estimates, order_of, sign_all,
  save_estimate, make_ops, send_ops, run_test,
}
use bounded_spending_account.GasCheck.Report.{
  Cell, blank, text, number, integer, less, difference_cell, overhead_cell, row_of, add_row,
  add_test_row, add_test_rows,
}
use bounded_spending_account.GasCheck.Report.Rows.{Exceeds, second_row_is_the_marginal_cost}
use bounded_spending_account.GasCheck.Suites.{plain}
use bounded_spending_account.Scripts.RunOp.{
  decimal_onto, decimal, text_lt, needs_prefund, matches_1337, starts_with_1337,
}
use bounded_spending_account.Scripts.RunOp.Prefund.{only_powers_of_ten_are_prefunded}

-- Two operations with the estimates 7 and 9: the first signs while the second waits.
abbrev first_signs : Reach (7 ∷ 9 ∷ []) true 9 (signing 7 ∷ waiting ∷ [])
first_signs = later (later start (here arrive_free)) (there (here arrive_busy))

one_signs_at_a_time_example : signing_count (signing 7 ∷ waiting ∷ []) ≡ as_count true
one_signs_at_a_time_example = one_signs_at_a_time (7 ∷ 9 ∷ []) first_signs

-- A chain that counts what has been sent to it: the factory is there from 1 on, and the accounts,
-- which have the addresses 100, 101 and so on, from 2 on.
abbrev provider : Provider ℕ
provider = record {
  get_code =
      λ a c. if a == contract_address || leb (if leb 100 a then 2 else 1) c then 1 ∷ [] else [];
  send_value = λ to value c. returned c;
  raw_factory_tx = λ c. returned c;
  send_call = λ to payload gas c. returned (c + 1);
  estimate_gas = λ to payload c. 9;
  keccak256 = λ bs. length bs;
}

-- An operation costs 40000 of gas, and a bundle 50000; a call is estimated at 30000.
abbrev site : Site ℕ
site = record {
  provider = provider;
  global_signer = 50;
  account_owner = 51;
  entry_point = 52;
  factory_bytecode = 1 ∷ [];
  account_address = λ factory owner salt. 100 + salt;
  create_account_data = λ owner salt. salt ∷ [];
  execute_data = λ dest value payload. payload;
  sign_user_op = λ op. op;
  fill_sign_and_pack = λ order c. returned (record {
    sender = order.sender;
    nonce = c;
    init_code = [];
    call_data = order.call_data;
    account_gas_limits = order.call_gas_limit;
    pre_verification_gas = 1;
    gas_fees = 1;
    paymaster_and_data = [];
    signature = [];
  });
  random_address = λ index. 200 + index;
  get_balance = λ a c. 0;
  balance_of = λ a c. 0;
  deposit_to = λ a value c. returned c;
  estimate_gas = λ from to payload c. returned 30000;
  estimate_handle_ops = λ ops beneficiary c. returned 500000;
  handle_ops = λ ops beneficiary gas c. returned (
    record {
      gas_used = 50000 + 40000 * length ops;
      events = replicate (length ops) (user_operation true);
    },
    c + 1,
  );
  schedule = λ es. (es, get_or es 0 0);
}

abbrev new_checker : Checker
new_checker = record { accounts = []; created_accounts = [] }

abbrev two_accounts : Checker
two_accounts = record { accounts = 100 ∷ 101 ∷ []; created_accounts = 100 ∷ 101 ∷ [] }

creates_two : create_accounts1 site 2 new_checker 0 ≡ returned (two_accounts, 2)
unfolding create_accounts1 deploy deploy_factory is_factory_deployed deploy_code chosen_gas
    get_deployed_address factory_init range range_from each_account creation_ops creation_op fund
    note insert has account_init_code to_be to_be_onto from_be pack_user_op pack_account_gas_limits
    pad16 packed_paymaster has_paymaster pack_paymaster_data
creates_two = refl

creates_one_more : create_accounts1 site 1 two_accounts 5 ≡ returned (two_accounts, 6)
unfolding create_accounts1 deploy deploy_factory is_factory_deployed deploy_code
    get_deployed_address factory_init range range_from each_account creation_ops fund note insert
    has to_be to_be_onto from_be
creates_one_more = refl

promises_end_example :
    (waits_left (signing 7 ∷ waiting ∷ []) ≤ 6)
    × ((waits_left (signing 7 ∷ waiting ∷ []) ≡ 0) ⊎ CanMove true 9 (signing 7 ∷ waiting ∷ []))
    × ((locked' : Bool) (shared' : ℕ) (tasks' : List Task)
        → Moves true 9 (signing 7 ∷ waiting ∷ []) locked' shared' tasks'
        → (waits_left tasks' < 3)
          ⊎ ((true ≡ true)
              × (locked' ≡ true)
              × (shared' ≡ 9)
              × (tasks' ≡ signing 7 ∷ waiting ∷ [])))
promises_end_example = promises_end (7 ∷ 9 ∷ []) first_signs

abbrev defaults : Defaults
defaults = default_gas_test_info 60

abbrev session : ℕ → Session
session gas = record {
  checker = two_accounts;
  gas_estimate_per_exec =
      record { key = defaults.dest_call_data; title = "simple"; account_est = 30000 } ∷ [];
  last_gas_used = some gas;
}

abbrev simple_result : GasTestResult
simple_result = record {
  title = "simple";
  count = 1;
  gas_used = 90000;
  account_est = 30000;
  gas_diff = none;
}

signs_all : (es : List ℕ) → length (site.schedule es).0 ≡ length es
signs_all es = refl

-- The second bundle uses 40000 more than the first, which is 10000 more than the estimate.
abbrev two_rows : List (List Cell)
two_rows =
    (text "simple" ∷ number 1 ∷ number 90000 ∷ blank ∷ blank ∷ [])
    ∷ (text "simple - diff from previous"
        ∷ number 2
        ∷ blank
        ∷ integer (pos 40000)
        ∷ integer (pos 10000)
        ∷ [])
    ∷ []

reports_two :
    add_test_rows site defaults
      (plain "simple" 1 false ∷ plain "simple - diff from previous" 2 true ∷ [])
      ([], session 5)
      5
    ≡ returned ((two_rows, session 130000), 9)
unfolding add_test_rows add_test_row add_row row_of difference_cell overhead_cell less minus
    gas_difference run_test create_accounts1 deploy deploy_factory is_factory_deployed deploy_code
    get_deployed_address factory_init range range_from each_account creation_ops fund note insert
    has to_be to_be_onto from_be default_gas_test_info fill_info make_ops first_accounts exec_calls
    resolve_dest account_exec find_estimate bytes_eq estimates sign_all order_of save_estimate
    send_ops check_receipt first_revert count_success_ops result_of
reports_two = refl

abbrev MarginalCost : Type 0
MarginalCost =
    (res res' : GasTestResult) × (s1 : Session) × (c1 : ℕ) × (d overhead : ℤ) × (run_test site
        defaults (plain "simple" 1 false) (session 5) 5
      ≡ returned (res, s1, c1))
    × (run_test site defaults (plain "simple - diff from previous" 2 true) s1 c1
        ≡ returned (res', session 130000, 9))
    × (two_rows
        ≡ (text "simple" ∷ number 1 ∷ number res.gas_used ∷ blank ∷ blank ∷ [])
          ∷ (text "simple - diff from previous"
              ∷ number 2
              ∷ blank
              ∷ integer d
              ∷ integer overhead
              ∷ [])
          ∷ [])
    × Exceeds res.gas_used d res'.gas_used
    × Exceeds (res.gas_used + res'.account_est) overhead res'.gas_used

second_row_is_the_marginal_cost_example : MarginalCost
second_row_is_the_marginal_cost_example =
    second_row_is_the_marginal_cost site signs_all defaults (plain "simple" 1 false)
      (plain "simple - diff from previous" 2 true) [] (session 5) 5 refl refl reports_two

-- 0.001 ETH is a power of ten in wei, and 0.005 ETH is none.
prefunds : needs_prefund (10 ^ 15) ≡ true
unfolding needs_prefund text_lt decimal decimal_onto
prefunds = refl

does_not_prefund : needs_prefund (5 * 10 ^ 15) ≡ false
unfolding needs_prefund text_lt decimal decimal_onto
does_not_prefund = refl

only_powers_of_ten_are_prefunded_example : (10 ^ 15 ≡ 0) ⊎ ((k : ℕ) × (k < 16) × (10 ^ 15 ≡ 10 ^ k))
only_powers_of_ten_are_prefunded_example =
    only_powers_of_ten_are_prefunded (10 ^ 15) (omega arith) prefunds

matches : matches_1337 (decimal 31337) ≡ true
unfolding matches_1337 starts_with_1337 decimal decimal_onto
matches = refl
