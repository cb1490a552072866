-- ===== src/Client/Deployer/Deploys.antt =====
-- What lib/account-abstraction/src/Create2Factory.ts deploys, and with how much gas.
use bounded_spending_account.Prelude.{
  ℕ, ◌-◌, ◌/◌, ◌≤◌, ◌≡◌, ◌≢◌, Bool, true, refl, ap, sym, ◌∙◌, arith, [], ◌∷◌, length, ltb, ◌==◌,
  Bool-cases, inl, inr,
}
use bounded_spending_account.Solidity.{Address}
use bounded_spending_account.Solidity.Bytes.{Bytes}
use bounded_spending_account.Client.{
  returned, string_length, empty_reduce, failed_to_deploy, >>=-eq-returned, throw_if-eq-returned,
  returned-injective,
}
use bounded_spending_account.Client.Deployer.{
  contract_address, Provider, GasLimit, creation_gas, manual_gas, get_deployed_address,
  is_factory_deployed, deploy_factory, chosen_gas, deploy_code, deploy,
  get_deploy_transaction_call_data,
}

-- Of a manual estimate, all but a 64th, rounded down, which is what a call can pass on, is exactly
-- the estimated cost of the creation.
pub manual_gas_passes_on_the_cost :
    (init_code : Bytes) {gas : ℕ}
    → manual_gas init_code ≡ returned gas
    → gas - gas / 64 ≡ creation_gas init_code
unfolding manual_gas
manual_gas_passes_on_the_cost init_code h =
    let (some_code, e) = throw_if-eq-returned (length init_code == 0) empty_reduce _ h in
    let gas = returned-injective e in omega arith

length-nonempty : (bs : Bytes) → bs ≢ [] → 1 ≤ length bs
length-nonempty [] h = absurd (h refl)
length-nonempty (b ∷ bs) h = omega arith

module _ {C : Type 0} (provider : Provider C) where
  deploy_code-eq-returned :
      (init_code : Bytes) (salt : ℕ) (gas_limit : GasLimit) (c : C) {addr : Address} {after : C}
      → deploy_code provider init_code salt gas_limit c ≡ returned (addr, after)
      → (addr ≡ get_deployed_address provider init_code salt) × (provider.get_code addr after ≢ [])
  unfolding deploy_code
  deploy_code-eq-returned init_code salt gas_limit c {addr} {after} h =
      let at = get_deployed_address provider init_code salt in
      let send = get_deploy_transaction_call_data init_code salt in
      elim (Bool-cases (ltb 2 (string_length (provider.get_code at c)))) [
        | inl there ↦
            let e = returned-injective (rw there at h) in
            let same : addr ≡ at = sym (ap (λ x. x.0) e) in
            (same, λ none_there. ground (arith, same, sym (ap (λ x. x.1) e), none_there))
        | inr free ↦
            let (gas, picks, h1) =
              >>=-eq-returned (chosen_gas provider gas_limit init_code salt c) _ (rw free at h) in
            let (sent, sends, h2) =
              >>=-eq-returned (provider.send_call contract_address send gas c) _ h1 in
            let (filled, h3) =
              throw_if-eq-returned (string_length (provider.get_code at sent) == 2) failed_to_deploy
                _ h2 in
            let e = returned-injective h3 in
            let same : addr ≡ at = sym (ap (λ x. x.0) e) in
            (same, λ none_there. ground (arith, same, sym (ap (λ x. x.1) e), none_there))
      ]

  deploy_factory-known :
      (factory_deployed : Bool) (c : C) {known : Bool} {after : C}
      → deploy_factory provider factory_deployed c ≡ returned (known, after)
      → known ≡ true
  unfolding deploy_factory
  deploy_factory-known factory_deployed c h = ground arith

  -- A deployment that returns has put code at the address that it returns, and that is the one
  -- which `getDeployedAddress` computes from the code and the salt; the deployer is then known.
  pub deploy_leaves_code :
      (factory_deployed : Bool) (init_code : Bytes) (salt : ℕ) (gas_limit : GasLimit) (c : C)
      {addr : Address} {known : Bool} {after : C}
      → deploy provider factory_deployed init_code salt gas_limit c ≡ returned (addr, known, after)
      → (addr ≡ get_deployed_address provider init_code salt)
        × (provider.get_code addr after ≢ [])
        × (known ≡ true)
  unfolding deploy
  deploy_leaves_code factory_deployed init_code salt gas_limit c h =
      let ((k, there), deploys, h1) =
        >>=-eq-returned (deploy_factory provider factory_deployed c) _ h in
      let ((a, d), codes, h2) =
        >>=-eq-returned (deploy_code provider init_code salt gas_limit there) _ h1 in
      let e = returned-injective h2 in
      let (at, some_code) = deploy_code-eq-returned init_code salt gas_limit there codes in
      (
        sym (ap (λ x. x.0) e) ∙ at,
        λ z. some_code (ap (λ x. provider.get_code x.0 x.2) e ∙ z),
        sym (ap (λ x. x.1) e) ∙ deploy_factory-known factory_deployed c deploys,
      )

  -- Once there is code at the address of a deployment, and the deployer is known, deploying again
  -- returns that address and sends nothing.
  pub deploy_again :
      (init_code : Bytes) (salt : ℕ) (gas_limit : GasLimit) (c : C)
      → provider.get_code (get_deployed_address provider init_code salt) c ≢ []
      → deploy provider true init_code salt gas_limit c
        ≡ returned (get_deployed_address provider init_code salt, true, c)
  unfolding deploy deploy_factory deploy_code is_factory_deployed
  deploy_again init_code salt gas_limit c there =
      let size =
        length-nonempty (provider.get_code (get_deployed_address provider init_code salt) c)
          there in
      let filled : ltb 2
            (string_length (provider.get_code (get_deployed_address provider init_code salt) c))
          ≡ true =
        ground arith in
      rw filled refl
