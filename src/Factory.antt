-- ===== src/Factory.antt =====
-- src/SpendingAccountFactory.sol. The creation code, the hash function, the address rule of the
-- `CREATE2` instruction and the library `Create2` of OpenZeppelin are parameters.
pub mod Addresses
use bounded_spending_account.Prelude.{ℕ, ◌≡◌, ◌++◌, Option, none, some, ◌==◌, if◌then◌else◌}
use bounded_spending_account.Solidity.{Address, empty, Result, ok, revert}
use bounded_spending_account.Solidity.Bytes.{Bytes, to_be}
use bounded_spending_account.Account.{Config, Account, construct}

-- The immutables of the contract, and its own address.
pub record Factory : Type 0 where
  pub this : Address
  pub entry_point : Address
  pub paymaster : Address
  pub usdc_per_eth : ℕ

-- The arguments of `createAccount` and of `getAddress`, but the salt.
pub record Terms : Type 0 where
  pub vault_owner : Address
  pub daily_eth_limit : ℕ
  pub monthly_eth_limit : ℕ
  pub daily_usdc_limit : ℕ
  pub monthly_usdc_limit : ℕ

-- `type(SpendingAccount).creationCode`, `keccak256`, the address that `CREATE2` gives a creator, a
-- salt and the hash of an init code, and `Create2.computeAddress` for a salt, a hash and a creator.
pub record Creation : Type 0 where
  pub creation_code : Bytes
  pub keccak256 : Bytes → ℕ
  pub create2_address : Address → ℕ → ℕ → Address
  pub compute_address : ℕ → ℕ → Address → Address

-- The accounts that are deployed: at an address, the immutables and the storage of one.
abbrev pub Deployed : Type 0
Deployed = Address → Option (Config × Account)

-- `abi.encode` of the constructor's arguments
unfoldable pub constructor_args : Factory → Terms → Bytes
constructor_args f t =
    to_be 32 f.entry_point
    ++ (to_be 32 t.vault_owner
        ++ (to_be 32 f.paymaster
            ++ (to_be 32 f.usdc_per_eth
                ++ (to_be 32 t.daily_eth_limit
                    ++ (to_be 32 t.monthly_eth_limit
                        ++ (to_be 32 t.daily_usdc_limit ++ to_be 32 t.monthly_usdc_limit))))))

-- The immutables that the constructor sets, in a contract at `this`.
unfoldable pub constructed_config : Factory → Terms → Address → Config
constructed_config f t this = record {
  this = this;
  entry_point = f.entry_point;
  vault_owner = t.vault_owner;
  paymaster = f.paymaster;
  usdc_per_eth = f.usdc_per_eth;
  daily_eth_limit = t.daily_eth_limit;
  monthly_eth_limit = t.monthly_eth_limit;
  daily_usdc_limit = t.daily_usdc_limit;
  monthly_usdc_limit = t.monthly_usdc_limit;
}

-- `new SpendingAccount{salt: salt}(…)`: it reverts where the address is taken, and else puts a new
-- account there.
unfoldable pub deploy_at : ℕ → Config → Address → Deployed → Result (Address × Deployed)
deploy_at now c account deployed = elim (deployed account) [
  | some _ ↦ revert empty
  | none ↦ ok (account, λ a. if a == account then some (c, construct now) else deployed a)
]

module _ (creation : Creation) (f : Factory) where
  unfoldable pub init_code_hash : Terms → ℕ
  unfolding constructor_args
  init_code_hash t = creation.keccak256 (creation.creation_code ++ constructor_args f t)

  -- `createAccount`, in a block with timestamp `now`
  unfoldable pub create_account : ℕ → Terms → ℕ → Deployed → Result (Address × Deployed)
  unfolding init_code_hash constructed_config deploy_at
  create_account now t salt deployed =
      let account = creation.create2_address f.this salt (init_code_hash t) in
      deploy_at now (constructed_config f t account) account deployed

  -- `getAddress`
  unfoldable pub get_address : Terms → ℕ → Address
  unfolding init_code_hash
  get_address t salt = creation.compute_address salt (init_code_hash t) f.this
