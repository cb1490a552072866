-- ===== src/Factory/Addresses.antt =====
-- src/SpendingAccountFactory.sol deploys where it says it does, with the terms that it was given.
use bounded_spending_account.Prelude.{ℕ, ◌≡◌, ◌≢◌, refl, sym, ◌∙◌, some, arith, ==_iff}
use bounded_spending_account.Solidity.{Address, empty, Result, ok, revert}
use bounded_spending_account.Account.{Config, construct}
use bounded_spending_account.Factory.{
  Factory, Terms, Creation, Deployed, deploy_at, create_account, get_address, init_code_hash,
}

-- OpenZeppelin's `computeAddress` computes the address that `CREATE2` gives.
abbrev pub ComputesCreate2 : Creation → Type 0
ComputesCreate2 creation =
    (salt hash : ℕ) (creator : Address)
    → creation.compute_address salt hash creator ≡ creation.create2_address creator salt hash

-- A new account with the given terms is put at `account`, and all other accounts are left alone.
pub record IsDeployed (c : Config) (now : ℕ) (account : Address) (deployed : Deployed)
    (result : Result (Address × Deployed)) : Type 0 where
  pub after : Deployed
  pub returned : result ≡ ok (account, after)
  pub there : after account ≡ some (c, construct now)
  pub others : (a : Address) → a ≢ account → after a ≡ deployed a

deploy_at-once :
    (now later : ℕ) (c : Config) (account : Address) (deployed : Deployed) {a : Address}
    {after : Deployed}
    → deploy_at now c account deployed ≡ ok (a, after)
    → (a ≡ account) × (deploy_at later c account after ≡ revert empty)
unfolding deploy_at
deploy_at-once now later c account deployed h = ground (arith, (==_iff account account).1 refl)

module _ (creation : Creation) (f : Factory) (computes : ComputesCreate2 creation) where
  -- If `Create2.computeAddress` computes the address of `CREATE2`, a `createAccount` that succeeds
  -- returns the address that `getAddress` predicts, and the next one with the same terms and salt
  -- reverts.
  pub create_account_once :
      (now later : ℕ) (t : Terms) (salt : ℕ) (deployed : Deployed) {account : Address}
      {after : Deployed}
      → create_account creation f now t salt deployed ≡ ok (account, after)
      → (account ≡ get_address creation f t salt)
        × (create_account creation f later t salt after ≡ revert empty)
  unfolding create_account get_address init_code_hash
  create_account_once now later t salt deployed h =
      let (at, once) = deploy_at-once now later _ _ deployed h in
      (at ∙ sym (computes salt (init_code_hash creation f t) f.this), once)
