-- ===== src/GasCheck/Suites.antt =====
-- The tests of lib/account-abstraction/gascalc/*.gas.ts: the rows that each asks for, and the
-- paymasters that two of them deploy. `skip_long` is whether `SKIP_LONG` is set.
use Prim.Native.String.{String}
use bounded_spending_account.Prelude.{
  ℕ, Bool, true, false, List, [], ◌∷◌, ◌++◌, none, some, replicate, if◌then◌else◌,
}
use bounded_spending_account.Solidity.{Address}
use bounded_spending_account.Solidity.Bytes.{Bytes, to_be}
use bounded_spending_account.Client.{Try, returned, ◌>>=◌}
use bounded_spending_account.Client.Deployer.{undefined, deploy}
use bounded_spending_account.GasCheck.{Site, Params, default_gas_test_info}

abbrev pub plain : String → ℕ → Bool → Params
plain title count diff = record {
  title = title;
  diff_last_gas = diff;
  count = count;
  paymaster = none;
  dest = none;
  dest_value = none;
  dest_call_data = none;
  beneficiary = none;
  gas_price = none;
}

-- 0-init-gas-checker.ts
abbrev pub warmup : Params
warmup = plain "simple" 1 false

-- 1-simple-wallet.gas.ts
unfoldable pub simple_account : Bool → List Params
simple_account skip_long =
    plain "simple" 1 false
    ∷ plain "simple - diff from previous" 2 true
    ∷ (if skip_long
        then []
        else plain "simple" 10 false ∷ plain "simple - diff from previous" 11 true ∷ [])

-- 2-paymaster.gas.ts
unfoldable pub minimal_paymaster : Address → Bool → List Params
minimal_paymaster paymaster skip_long =
    let paid : Params → Params =
      λ params. record params { paymaster = some (to_be 20 paymaster) } in
    paid (plain "simple paymaster" 1 false)
    ∷ paid (plain "simple paymaster with diff" 2 true)
    ∷ (if skip_long
        then []
        else paid (plain "simple paymaster" 10 false)
          ∷ paid (plain "simple paymaster with diff" 11 true)
          ∷ [])

-- `DefaultGasTestInfo.destCallData!.padEnd(10240, 'f')`: 10 characters, and 10230 digits f
unfoldable pub huge : Bytes
unfolding default_gas_test_info
huge = (default_gas_test_info 0).dest_call_data ++ replicate 5115 0xff

-- 3-huge-tx-gas.ts
unfoldable pub huge_tx : Bool → List Params
unfolding huge
huge_tx skip_long =
    let sized : Params → Params = λ params. record params { dest_call_data = some huge } in
    sized (plain "big tx 5k" 1 false)
    ∷ sized (plain "big tx - diff from previous" 2 true)
    ∷ (if skip_long
        then []
        else sized (plain "big tx 5k" 10 false)
          ∷ sized (plain "big tx - diff from previous" 11 true)
          ∷ [])

-- 4-paymaster-postop.gas.ts
unfoldable pub paymaster_with_post_op : Address → Bool → List Params
paymaster_with_post_op paymaster skip_long =
    let paid : Params → Params =
      λ params. record params { paymaster = some (to_be 20 paymaster) } in
    paid (plain "paymaster+postOp" 1 false)
    ∷ paid (plain "paymaster+postOp with diff" 2 true)
    ∷ (if skip_long
        then []
        else paid (plain "paymaster+postOp" 10 false)
          ∷ paid (plain "paymaster+postOp with diff" 11 true)
          ∷ [])

-- `before` of the two tests with a paymaster, with its init code and the paymaster's `addStake`.
unfoldable pub deploy_paymaster :
    {C : Type 0} → Site C → (Address → ℕ → ℕ → C → Try C) → Bytes → C → Try (Address × C)
deploy_paymaster site add_stake paymaster_init c = do
  (paymaster, known, there) ← deploy site.provider false paymaster_init 0 undefined c
  staked ← add_stake paymaster 1 1 there
  after ← site.deposit_to paymaster 10000000000000000000 staked
  returned (paymaster, after)
