-- ===== src/Client/Deployer.antt =====
-- `Create2Factory` of lib/account-abstraction/src/Create2Factory.ts. The provider, that is the
-- chain that it reads and sends to, and `keccak256` are parameters; each transaction is mined
-- before the next line runs.
pub mod Deploys
use bounded_spending_account.Prelude.{
  ℕ, ◌+◌, ◌*◌, ◌/◌, ◌%◌, ◌^◌, Bool, true, false, List, [], ◌∷◌, ◌++◌, length, ltb, not, ◌==◌,
  if◌then◌else◌,
}
use bounded_spending_account.Solidity.{Address}
use bounded_spending_account.Solidity.Bytes.{Bytes, to_be}
use bounded_spending_account.Client.{
  Try, returned, throws, ◌>>=◌, ◌>>◌, throw_if, string_length, empty_reduce, failed_to_deploy,
  failed_to_deploy_deployer,
}

-- `contractAddress` and `factoryDeployer`
abbrev pub contract_address : Address
contract_address = 0x4e59b44847b379578588920ca78fbf26c0b4956c

abbrev pub factory_deployer : Address
factory_deployer = 0x3fab184622dc19b6109349b94811493bf2a45362

-- `factoryDeploymentFee`: the gas price of 100e9 and the limit of 100000
abbrev pub factory_deployment_fee : ℕ
factory_deployment_fee = 100000000000 * 100000

-- What the class asks of the provider and the signer, for chains of type `C`. `raw_factory_tx`
-- sends the signed transaction `factoryTx`.
pub record Provider (C : Type 0) : Type 0 where
  pub get_code : Address → C → Bytes
  pub send_value : Address → ℕ → C → Try C
  pub raw_factory_tx : C → Try C
  pub send_call : Address → Bytes → ℕ → C → Try C
  pub estimate_gas : Address → Bytes → C → ℕ
  pub keccak256 : Bytes → ℕ

-- The argument `gasLimit`: a number, `'estimate'`, or undefined.
pub data GasLimit : Type 0 where
  limit : ℕ → GasLimit
  estimate undefined : GasLimit

-- The price of each byte, added up.
unfoldable pub data_gas : Bytes → ℕ
data_gas [] = 0
data_gas (b ∷ bs) = (if b == 0 then 4 else 16) + data_gas bs

-- The estimate before the share of the deployer is added. The lengths are those of the hex string,
-- so 200 for each byte and for `0x`; `Math.ceil(n / 64)` is `(n + 63) / 64`.
unfoldable pub creation_gas : Bytes → ℕ
unfolding data_gas
creation_gas init_code =
    data_gas init_code
    + 200 * string_length init_code / 2
    + 6 * ((string_length init_code + 63) / 64)
    + 32000
    + 21000

-- The manual estimate; `reduce` throws on an empty array.
unfoldable pub manual_gas : Bytes → Try ℕ
unfolding creation_gas
manual_gas init_code = do
  throw_if (length init_code == 0) empty_reduce
  returned (creation_gas init_code * 64 / 63)

-- `getDeployTransactionCallData`, for a salt below 2^256
unfoldable pub get_deploy_transaction_call_data : Bytes → ℕ → Bytes
get_deploy_transaction_call_data init_code salt = to_be 32 salt ++ init_code

module _ {C : Type 0} (provider : Provider C) where
  -- `getDeployedAddress`
  unfoldable pub get_deployed_address : Bytes → ℕ → Address
  get_deployed_address init_code salt =
      provider.keccak256 (
        0xff
        ∷ (to_be 20 contract_address ++ (to_be 32 salt ++ to_be 32 (provider.keccak256 init_code))))
      % 2 ^ 160

  -- `_isFactoryDeployed`: the answer, which is also the new value of the field `factoryDeployed`
  unfoldable pub is_factory_deployed : Bool → C → Bool
  is_factory_deployed factory_deployed c =
      if factory_deployed
      then true
      else ltb 2 (string_length (provider.get_code contract_address c))

  -- `deployFactory`: the new value of the field, and the chain
  unfoldable pub deploy_factory : Bool → C → Try (Bool × C)
  unfolding is_factory_deployed
  deploy_factory factory_deployed c =
      if is_factory_deployed factory_deployed c then returned (true, c) else (do
        funded ← provider.send_value factory_deployer factory_deployment_fee c
        sent ← provider.raw_factory_tx funded
        throw_if (not (is_factory_deployed false sent)) failed_to_deploy_deployer
        returned (true, sent))

  -- The gas limit that `deploy` sends.
  unfoldable pub chosen_gas : GasLimit → Bytes → ℕ → C → Try ℕ
  unfolding manual_gas get_deploy_transaction_call_data
  chosen_gas (limit gas) init_code salt c = returned gas
  chosen_gas estimate init_code salt c =
      returned
        (provider.estimate_gas contract_address (get_deploy_transaction_call_data init_code salt) c)
  chosen_gas undefined init_code salt c = manual_gas init_code

  -- The part of `deploy` after the deployer is there: the address and the chain.
  unfoldable pub deploy_code : Bytes → ℕ → GasLimit → C → Try (Address × C)
  unfolding get_deployed_address chosen_gas get_deploy_transaction_call_data
  deploy_code init_code salt gas_limit c =
      let addr = get_deployed_address init_code salt in
      if ltb 2 (string_length (provider.get_code addr c)) then returned (addr, c) else (do
        gas ← chosen_gas gas_limit init_code salt c
        sent ←
            provider.send_call contract_address (get_deploy_transaction_call_data init_code salt)
              gas c
        throw_if (string_length (provider.get_code addr sent) == 2) failed_to_deploy
        returned (addr, sent))

  -- `deploy`: the address, the new value of `factoryDeployed`, and the chain
  unfoldable pub deploy : Bool → Bytes → ℕ → GasLimit → C → Try (Address × Bool × C)
  unfolding deploy_factory deploy_code
  deploy factory_deployed init_code salt gas_limit c = do
    (known, there) ← deploy_factory factory_deployed c
    (addr, after) ← deploy_code init_code salt gas_limit there
    returned (addr, known, after)
