-- ===== src/GasCheck/Accounts/Deposits.antt =====
-- The deposits that `createAccounts1` of lib/account-abstraction/gascalc/GasChecker.ts leaves.
use bounded_spending_account.Prelude.{
  ℕ, ◌+◌, ◌*◌, ◌≤◌, ◌<◌, ◌≡◌, refl, ap, arith, List, [], ◌∷◌, none, leb, leb→lt, ◌==◌,
  if◌then◌else◌, Bool-cases, inl, inr,
}
use bounded_spending_account.Solidity.{Address}
use bounded_spending_account.UserOp.{PackedUserOperation}
use bounded_spending_account.Client.{returned, returned-injective}
use bounded_spending_account.Client.Deployer.{get_deployed_address}
use bounded_spending_account.GasCheck.{Site, range, Receipt}
use bounded_spending_account.GasCheck.Accounts.{
  Checker, factory_init, fund, each_account, create_accounts1, min_deposit_or_balance,
}
use bounded_spending_account.GasCheck.Accounts.Created.{
  at_salt, KnowsAll, each_account_round, create_accounts1_steps, each_account-KnowsAll,
}

module _ {C : Type 0} (site : Site C) where
  -- The deposits that `depositTo` makes.
  abbrev pub Deposits : Type 0
  Deposits =
      (a b : Address) (value : ℕ) (c c' : C)
      → site.deposit_to b value c ≡ returned c'
      → site.balance_of a c' ≡ site.balance_of a c + (if a == b then value else 0)

  abbrev pub Funded : Address → List ℕ → C → Type 0
  Funded factory [] c = Unit
  Funded factory (salt ∷ salts) c =
      (min_deposit_or_balance < site.balance_of (at_salt site factory salt) c)
      × Funded factory salts c

  fund-balance :
      (deposits : Deposits) (a b : Address) (c : C) {c' : C}
      → fund site b c ≡ returned c'
      → (site.balance_of a c ≤ site.balance_of a c')
        × (a ≡ b → min_deposit_or_balance < site.balance_of a c')
  unfolding fund
  fund-balance deposits a b c {c'} h =
      elim (Bool-cases (leb (site.balance_of b c) min_deposit_or_balance)) [
        | inl few ↦
            let e = deposits a b (min_deposit_or_balance * 5) c c' (rw few at h) in
            ground (arith, e)
        | inr enough ↦
            let e : c ≡ c' = returned-injective (rw enough at h) in
            rw (← e) (omega arith, λ same. rw same (leb→lt _ _ enough))
      ]

  each_account-balance :
      (deposits : Deposits) (a factory : Address) (salts : List ℕ) (s : Checker) (c : C)
      {ops : List PackedUserOperation} {s' : Checker} {c' : C}
      → each_account site factory salts s c ≡ returned (ops, s', c')
      → site.balance_of a c ≤ site.balance_of a c'
  unfolding each_account
  each_account-balance deposits a factory [] s c h =
      rw (ap (λ x. x.2) (returned-injective h)) (omega arith)
  each_account-balance deposits a factory (salt ∷ salts) s c h =
      let (_, _, funded, _, funds, goes, _) = each_account_round site factory salt salts s c h in
      omega (
        arith,
        (fund-balance deposits a (at_salt site factory salt) c funds).0,
        each_account-balance deposits a factory salts _ funded goes,
      )

  each_account-Funded :
      (deposits : Deposits) (factory : Address) (salts : List ℕ) (s : Checker) (c : C)
      {ops : List PackedUserOperation} {s' : Checker} {c' : C}
      → each_account site factory salts s c ≡ returned (ops, s', c')
      → Funded factory salts c'
  each_account-Funded deposits factory [] s c h = tt
  each_account-Funded deposits factory (salt ∷ salts) s c h =
      let a = at_salt site factory salt in
      let (_, _, funded, _, funds, goes, _) = each_account_round site factory salt salts s c h in
      (
        omega (
          arith,
          (fund-balance deposits a a c funds).1 refl,
          each_account-balance deposits a factory salts _ funded goes,
        ),
        each_account-Funded deposits factory salts _ funded goes,
      )

  -- Where `depositTo` adds its value to the deposit of its account alone, every account that
  -- `createAccounts1` is asked for has more than 0.1 ETH of deposit when the bundle that creates
  -- the new ones is sent, and the checker knows each of them afterwards.
  pub accounts_have_deposits :
      (deposits : Deposits) (n : ℕ) (s : Checker) (c : C) {s' : Checker} {c' : C}
      → create_accounts1 site n s c ≡ returned (s', c')
      → let factory = get_deployed_address site.provider (factory_init site) 0 in
        KnowsAll site factory (range n) s'
        × ((ops : List PackedUserOperation) × (funded : C) × (receipt : Receipt) × Funded factory
              (range n)
              funded
            × (site.handle_ops ops site.global_signer none funded ≡ returned (receipt, c')))
  accounts_have_deposits deposits n s c h =
      let factory = get_deployed_address site.provider (factory_init site) 0 in
      let (ops, there, funded, receipt, goes, handled) = create_accounts1_steps site n s c h in
      (
        each_account-KnowsAll site factory (range n) s there goes,
        (
          ops,
          funded,
          receipt,
          each_account-Funded deposits factory (range n) s there goes,
          handled,
        ),
      )
