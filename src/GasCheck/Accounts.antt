-- ===== src/GasCheck/Accounts.antt =====
-- `createAccounts1` of lib/account-abstraction/gascalc/GasChecker.ts.
pub mod Created
pub mod Deposits
use bounded_spending_account.Prelude.{
  ℕ, ◌*◌, Bool, true, false, List, [], ◌∷◌, ◌++◌, some, none, replicate, leb, ◌||◌, ◌==◌,
  if◌then◌else◌,
}
use bounded_spending_account.Solidity.{Address}
use bounded_spending_account.Solidity.Bytes.{Bytes, to_be}
use bounded_spending_account.UserOp.{PackedUserOperation}
use bounded_spending_account.Client.{Try, returned, ◌>>=◌, string_length}
use bounded_spending_account.Client.Operation.{UserOperation, pack_user_op}
use bounded_spending_account.Client.Deployer.{GasLimit, limit, deploy}
use bounded_spending_account.GasCheck.{Site, account_init_code, range}

-- `minDepositOrBalance`
abbrev pub min_deposit_or_balance : ℕ
min_deposit_or_balance = 100000000000000000

-- Whether an address is in a set, or a key of an object.
unfoldable pub has : Address → List Address → Bool
has a [] = false
has a (b ∷ bs) = b == a || has a bs

-- Both a set and the keys of an object are kept in the order of their insertion.
unfoldable pub insert : Address → List Address → List Address
unfolding has
insert a bs = if has a bs then bs else bs ++ (a ∷ [])

-- The fields of `GasChecker` that the accounts are kept in; `accounts` maps each to the same owner.
pub record Checker : Type 0 where
  pub accounts : List Address
  pub created_accounts : List Address

-- `createdAccounts.add(addr)` and `accounts[addr] = accountOwner`
unfoldable pub note : Address → Checker → Checker
unfolding insert
note addr s = record {
  accounts = insert addr s.accounts;
  created_accounts = insert addr s.created_accounts;
}

module _ {C : Type 0} (site : Site C) where
  -- The bytecode and the argument of the factory.
  unfoldable pub factory_init : Bytes
  factory_init = site.factory_bytecode ++ to_be 32 site.entry_point

  -- What `signUserOp` gets for an account that is to be created, from `fillUserOp` without an entry
  -- point: the fields that are not given are those of `DefaultsForUserOp`.
  unfoldable pub creation_op : Address → Address → ℕ → UserOperation
  unfolding account_init_code
  creation_op factory addr salt = record {
    sender = addr;
    nonce = 0;
    init_code = account_init_code site (to_be 20 factory) salt;
    call_data = [];
    call_gas_limit = 30000;
    verification_gas_limit = 1000000;
    pre_verification_gas = 1;
    max_fee_per_gas = 0;
    max_priority_fee_per_gas = 1000000000;
    paymaster = some (replicate 20 0);
    paymaster_verification_gas_limit = 300000;
    paymaster_post_op_gas_limit = 0;
    paymaster_data = [];
    signature = [];
  }

  -- The operation that creates the account, if it is new and has no code.
  unfoldable pub creation_ops : Address → Address → ℕ → Checker → C → Try (List PackedUserOperation)
  unfolding creation_op has
  creation_ops factory addr salt s c =
      if has addr s.created_accounts
      then returned []
      else if string_length (site.provider.get_code addr c) == 2
      then (do
        packed ← pack_user_op (site.sign_user_op (creation_op factory addr salt))
        returned (packed ∷ []))
      else returned []

  -- The deposit of an account that has little.
  unfoldable pub fund : Address → C → Try C
  fund addr c =
      if leb (site.balance_of addr c) min_deposit_or_balance
      then site.deposit_to addr (min_deposit_or_balance * 5) c
      else returned c

  -- The loop over the salts: the operations, the fields and the chain.
  unfoldable pub each_account :
      Address → List ℕ → Checker → C → Try (List PackedUserOperation × Checker × C)
  unfolding creation_ops fund note
  each_account factory [] s c = returned ([], s, c)
  each_account factory (salt ∷ salts) s c = do
    let addr = site.account_address factory site.account_owner salt
    ops ← creation_ops factory addr salt s c
    funded ← fund addr c
    (more, noted, after) ← each_account factory salts (note addr s) funded
    returned (ops ++ more, noted, after)

  -- `createAccounts1`, after which the factory is known; the receipt of `handleOps` is not read.
  unfoldable pub create_accounts1 : ℕ → Checker → C → Try (Checker × C)
  unfolding factory_init each_account range
  create_accounts1 count s c = do
    (factory, known, there) ← deploy site.provider false factory_init 0 (limit 2885201) c
    (ops, noted, funded) ← each_account factory (range count) s there
    (receipt, after) ← site.handle_ops ops site.global_signer none funded
    returned (noted, after)
