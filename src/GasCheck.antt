-- ===== src/GasCheck.antt =====
-- The gas reports of lib/account-abstraction/gascalc: GasChecker.ts makes accounts, sends bundles of
-- operations and tabulates what they cost. The chain with the entry point, the factory and ethers,
-- and the filling in and signing of an operation (Client/Operation/Fill), are parameters.
pub mod Accounts
pub mod Signing
pub mod Runs
pub mod Report
pub mod Suites
use Prim.Native.String.{String}
use bounded_spending_account.Prelude.{
  ℕ, zero, suc, ◌+◌, Bool, List, [], ◌∷◌, ◌++◌, Option, none, some,
}
use bounded_spending_account.Solidity.{Address}
use bounded_spending_account.Solidity.Bytes.{Bytes}
use bounded_spending_account.UserOp.{PackedUserOperation}
use bounded_spending_account.Client.{Try}
use bounded_spending_account.Client.Operation.{UserOperation}
use bounded_spending_account.Client.Deployer.{Provider}

-- `range`
unfoldable pub range_from : ℕ → ℕ → List ℕ
range_from first zero = []
range_from first (suc n) = first ∷ range_from (first + 1) n

unfoldable pub range : ℕ → List ℕ
unfolding range_from
range n = range_from 0 n

-- `dest`: the account itself, a new address for each operation, or an address.
pub data Dest : Type 0 where
  self random : Dest
  to : Address → Dest

pub record GasTestInfo : Type 0 where
  pub title : String
  pub diff_last_gas : Bool
  pub paymaster : Option Bytes
  pub count : ℕ
  pub dest : Dest
  pub dest_value : ℕ
  pub dest_call_data : Bytes
  pub beneficiary : Address
  pub gas_price : ℕ

-- `Partial<GasTestInfo>`, with the fields that every test gives.
pub record Params : Type 0 where
  pub title : String
  pub diff_last_gas : Bool
  pub count : ℕ
  pub paymaster : Option Bytes
  pub dest : Option Dest
  pub dest_value : Option ℕ
  pub dest_call_data : Option Bytes
  pub beneficiary : Option Address
  pub gas_price : Option ℕ

-- `DefaultGasTestInfo`: the call data are the selector of `entryPoint()`.
pub record Defaults : Type 0 where
  pub dest : Dest
  pub dest_value : ℕ
  pub dest_call_data : Bytes
  pub beneficiary : Address
  pub gas_price : ℕ

unfoldable pub default_gas_test_info : Address → Defaults
default_gas_test_info beneficiary = record {
  dest = self;
  dest_value = 0;
  dest_call_data = 0xb0 ∷ 0xd6 ∷ 0x91 ∷ 0xfe ∷ [];
  beneficiary = beneficiary;
  gas_price = 10000000000;
}

-- A field of `{ ...DefaultGasTestInfo, ...params }`
abbrev pub given_or {ℓ} : {A : Type ℓ} → A → Option A → A
given_or default none = default
given_or default (some given) = given

unfoldable pub fill_info : Defaults → Params → GasTestInfo
fill_info defaults params = record {
  title = params.title;
  diff_last_gas = params.diff_last_gas;
  paymaster = params.paymaster;
  count = params.count;
  dest = given_or defaults.dest params.dest;
  dest_value = given_or defaults.dest_value params.dest_value;
  dest_call_data = given_or defaults.dest_call_data params.dest_call_data;
  beneficiary = given_or defaults.beneficiary params.beneficiary;
  gas_price = given_or defaults.gas_price params.gas_price;
}

-- The fields that `runTest` gives to `fillSignAndPack`.
pub record Order : Type 0 where
  pub sender : Address
  pub call_data : Bytes
  pub max_priority_fee_per_gas : ℕ
  pub max_fee_per_gas : ℕ
  pub call_gas_limit : ℕ
  pub verification_gas_limit : ℕ
  pub paymaster : Option Bytes
  pub paymaster_verification_gas_limit : ℕ
  pub paymaster_post_op_gas_limit : ℕ
  pub pre_verification_gas : ℕ

-- An event of a receipt: `UserOperationEvent` with its `success`; one of the two with a revert
-- reason; any other.
pub data OpEvent : Type 0 where
  user_operation : Bool → OpEvent
  reverted : Bytes → OpEvent
  unrelated : OpEvent

pub record Receipt : Type 0 where
  pub gas_used : ℕ
  pub events : List OpEvent

-- What the checks ask of the rest, for chains of type `C`. `account_address` is the factory's
-- `getAddress`, which reads no storage. `random_address` is what `createAddress` draws for each
-- operation. `schedule` is how the promises of `runTest` interleave: from the estimates of the
-- operations, the limits that they are signed with and the value left in `accountEst` (Signing).
pub record Site (C : Type 0) : Type 0 where
  pub provider : Provider C
  pub global_signer : Address
  pub account_owner : Address
  pub entry_point : Address
  pub factory_bytecode : Bytes
  pub account_address : Address → Address → ℕ → Address
  pub create_account_data : Address → ℕ → Bytes
  pub execute_data : Address → ℕ → Bytes → Bytes
  pub sign_user_op : UserOperation → UserOperation
  pub fill_sign_and_pack : Order → C → Try PackedUserOperation
  pub random_address : ℕ → Address
  pub get_balance : Address → C → ℕ
  pub balance_of : Address → C → ℕ
  pub deposit_to : Address → ℕ → C → Try C
  pub estimate_gas : Address → Address → Bytes → C → Try ℕ
  pub estimate_handle_ops : List PackedUserOperation → Address → C → Try ℕ
  pub handle_ops : List PackedUserOperation → Address → Option ℕ → C → Try (Receipt × C)
  pub schedule : List ℕ → List ℕ × ℕ

module _ {C : Type 0} (site : Site C) where
  -- `accountExec` and `accountInitCode`
  unfoldable pub account_exec : Address → ℕ → Bytes → Bytes
  account_exec dest value payload = site.execute_data dest value payload

  unfoldable pub account_init_code : Bytes → ℕ → Bytes
  account_init_code factory salt = factory ++ site.create_account_data site.account_owner salt
