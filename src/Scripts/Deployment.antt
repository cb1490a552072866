-- ===== src/Scripts/Deployment.antt =====
-- lib/account-abstraction/hardhat.config.ts and the deployment scripts lib/account-abstraction/deploy/*.ts,
-- which `hre.run('deploy')` runs in the order of their names. The plugin hardhat-deploy is a
-- parameter.
use Prim.Native.String.{String}
use Prim.Native.String
use bounded_spending_account.Prelude.{
  ℕ, Bool, List, [], ◌∷◌, Option, none, some, not, ◌||◌, ◌==◌, if◌then◌else◌,
}
use bounded_spending_account.Solidity.{Address}
use bounded_spending_account.Client.{Try, returned, ◌>>=◌}

-- `process.env.SALT` after hardhat.config.ts
abbrev pub default_salt : String
default_salt = "0x0a59dbff790c23c976a548690c27297883cc66b4c67024f9117b0238995e35e9"

unfoldable pub salt_or_default : Option String → String
salt_or_default none = default_salt
salt_or_default (some salt) = salt

-- The mnemonic: the content of the file, if there is one.
abbrev pub test_mnemonic : String
test_mnemonic = "test test test test test test test test test test test junk"

unfoldable pub mnemonic_or_test : Option String → String
mnemonic_or_test none = test_mnemonic
mnemonic_or_test (some content) = content

pub record HttpNetwork : Type 0 where
  pub url : String
  pub mnemonic : String

-- `getNetwork1`, and `getNetwork` for the value of `INFURA_ID`
unfoldable pub get_network1 : String → String → HttpNetwork
get_network1 mnemonic url = record { url = url; mnemonic = mnemonic }

unfoldable pub get_network : String → Option String → String → HttpNetwork
unfolding get_network1
get_network mnemonic infura_id name =
    let id : String = elim infura_id [ none ↦ "undefined" | some id ↦ id ] in
    get_network1 mnemonic
      (String.◌++◌ "https://" (String.◌++◌ name (String.◌++◌ ".infura.io/v3/" id)))

-- `deterministicDeployment`: a salt, or `true`.
pub data Deterministic : Type 0 where
  with_salt : String → Deterministic
  deterministic : Deterministic

-- The options of `deployments.deploy` that the scripts give.
pub record Options : Type 0 where
  pub from : Address
  pub args : List Address
  pub gas_limit : Option ℕ
  pub deterministic_deployment : Deterministic

pub data ContractName : Type 0 where
  entry_point simple_account_factory test_counter simple7702_account : ContractName

-- What the scripts use of the chain and of `hre.deployments`, for states of type `N`.
pub record Hardhat (N : Type 0) : Type 0 where
  pub signer : Address
  pub chain_id : ℕ
  pub deploy : ContractName → Options → N → Try (Address × N)
  pub get : ContractName → N → Try Address

module _ {N : Type 0} (hre : Hardhat N) where
  -- deploy/1_deploy_entrypoint.ts; `SALT` is set
  unfoldable pub deploy_entry_point : String → N → Try N
  deploy_entry_point salt n = do
    (addr, after) ←
        hre.deploy entry_point
          (record {
            from = hre.signer;
            args = [];
            gas_limit = some 6000000;
            deterministic_deployment = with_salt salt;
          })
          n
    returned after

  -- Whether deploy/2_deploy_SimpleAccountFactory.ts deploys: `force` is whether the arguments of
  -- the process name the factory.
  unfoldable pub deploys_factory : Bool → Bool
  deploys_factory force = force || hre.chain_id == 31337 || hre.chain_id == 1337

  unfoldable pub deploy_simple_account_factory : Bool → N → Try N
  unfolding deploys_factory
  deploy_simple_account_factory force n = if not (deploys_factory force) then returned n else (do
    entry_point_address ← hre.get entry_point n
    (factory, made) ←
        hre.deploy simple_account_factory
          (record {
            from = hre.signer;
            args = entry_point_address ∷ [];
            gas_limit = some 6000000;
            deterministic_deployment = deterministic;
          })
          n
    (counter, after) ←
        hre.deploy test_counter
          (record {
            from = hre.signer;
            args = [];
            gas_limit = none;
            deterministic_deployment = deterministic;
          })
          made
    returned after)

  -- deploy/3_deploy_Simple7702Account.ts
  unfoldable pub deploy_simple7702_account : N → Try N
  deploy_simple7702_account n = do
    (addr, after) ←
        hre.deploy simple7702_account
          (record {
            from = hre.signer;
            args = [];
            gas_limit = some 6000000;
            deterministic_deployment = deterministic;
          })
          n
    returned after

  -- `hre.run('deploy')`
  unfoldable pub run_deploy : String → Bool → N → Try N
  unfolding deploy_entry_point deploy_simple_account_factory deploy_simple7702_account
  run_deploy salt force n = do
    first ← deploy_entry_point salt n
    second ← deploy_simple_account_factory force first
    deploy_simple7702_account second
