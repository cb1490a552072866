-- ===== src/Client/Operation/Fill/Steps.antt =====
-- The fields of a partial operation that each step of `fillUserOp` in
-- lib/account-abstraction/test/UserOp.ts leaves as they are.
use bounded_spending_account.Prelude.{
  ℕ, ◌≡◌, refl, sym, subst, inl, inr, Option, none, some, if◌then◌else◌, Bool-cases, Option-cases,
}
use bounded_spending_account.Solidity.{Address}
use bounded_spending_account.Solidity.Bytes.{Bytes}
use bounded_spending_account.Client.{Try, returned, >>=-eq-returned, returned-injective}
use bounded_spending_account.Client.Operation.Fill.{
  PartialOp, Node, or_find, need, present, is_eip7702_code, check_delegate, fill_eip7702,
  find_sender, estimate_creation, fill_creation, fill_init, find_nonce, find_call_gas, find_max_fee,
  fill_paymaster, fill_fields,
}
use bounded_spending_account.Client.Operation.Fill.Extends.{
  Stays, Extends, Stays-refl, Stays-or_else, Stays-or_find, Extends-refl,
}

module _ (known_address : Bytes → ℕ → Address) (entry : Option Node) where
  fill_eip7702-Extends :
      (delegate : Option Address) (op : PartialOp) {filled : PartialOp}
      → fill_eip7702 entry delegate op ≡ returned filled
      → Extends op filled
  unfolding fill_eip7702
  fill_eip7702-Extends delegate op h =
      let (node, _, h1) = >>=-eq-returned (need entry) _ h in
      let (sender, _, h2) = >>=-eq-returned (present op.sender) _ h1 in
      let (done, _, h3) = >>=-eq-returned (check_delegate delegate (node.get_code sender)) _ h2 in
      rw (← returned-injective h3) (record {
        sender = Stays-refl op.sender;
        nonce = Stays-or_else (node.get_transaction_count sender) op.nonce;
        init_code = refl;
        call_data = refl;
        call_gas_limit = Stays-refl op.call_gas_limit;
        verification_gas_limit = Stays-refl op.verification_gas_limit;
        pre_verification_gas = refl;
        max_fee_per_gas = Stays-refl op.max_fee_per_gas;
        max_priority_fee_per_gas = Stays-refl op.max_priority_fee_per_gas;
        paymaster = refl;
        paymaster_verification_gas_limit = Stays-refl op.paymaster_verification_gas_limit;
        paymaster_post_op_gas_limit = Stays-refl op.paymaster_post_op_gas_limit;
        paymaster_data = refl;
        signature = refl;
      })

  fill_creation-Extends :
      (init_code : Bytes) (op : PartialOp) {filled : PartialOp}
      → fill_creation known_address entry init_code op ≡ returned filled
      → Extends op filled
  unfolding fill_creation
  fill_creation-Extends init_code op h =
      let find = find_sender known_address entry init_code in
      let estimate = estimate_creation entry init_code in
      let (sender, finds, h1) = >>=-eq-returned (or_find find op.sender) _ h in
      let (limit, estimates, h2) =
        >>=-eq-returned (or_find estimate op.verification_gas_limit) _ h1 in
      rw (← returned-injective h2) (record {
        sender = Stays-or_find find op.sender finds;
        nonce = Stays-or_else 0 op.nonce;
        init_code = refl;
        call_data = refl;
        call_gas_limit = Stays-refl op.call_gas_limit;
        verification_gas_limit = Stays-or_find estimate op.verification_gas_limit estimates;
        pre_verification_gas = refl;
        max_fee_per_gas = Stays-refl op.max_fee_per_gas;
        max_priority_fee_per_gas = Stays-refl op.max_priority_fee_per_gas;
        paymaster = refl;
        paymaster_verification_gas_limit = Stays-refl op.paymaster_verification_gas_limit;
        paymaster_post_op_gas_limit = Stays-refl op.paymaster_post_op_gas_limit;
        paymaster_data = refl;
        signature = refl;
      })

  pub fill_init-Extends :
      (delegate : Option Address) (op : PartialOp) {filled : PartialOp}
      → fill_init known_address entry delegate op ≡ returned filled
      → Extends op filled
  unfolding fill_init
  fill_init-Extends delegate op {filled} h = go op.init_code h
    where
      go :
          (o : Option Bytes)
          → (elim o as (λ x. Try PartialOp) [
            | none ↦ returned op
            | some init_code ↦
                if is_eip7702_code init_code
                then fill_eip7702 entry delegate op
                else fill_creation known_address entry init_code op
          ])
            ≡ returned filled
          → Extends op filled
      go none e = subst (λ x. Extends op x) (returned-injective e) (Extends-refl op)
      go (some init_code) e = elim (Bool-cases (is_eip7702_code init_code)) [
        | inl marked ↦ fill_eip7702-Extends delegate op (rw marked at e)
        | inr other ↦ fill_creation-Extends init_code op (rw other at e)
      ]

  find_call_gas-Stays :
      (op : PartialOp) {limit : Option ℕ}
      → find_call_gas entry op ≡ returned limit
      → Stays op.call_gas_limit limit
  unfolding find_call_gas
  find_call_gas-Stays op {limit} h = elim (Option-cases op.call_gas_limit) [
    | inl e ↦ rw e tt
    | inr (given, e) ↦ rw e (sym (returned-injective (rw e at h)))
  ]

  fill_paymaster-Stays :
      (op : PartialOp)
      → Stays op.paymaster_verification_gas_limit
          (fill_paymaster op).paymaster_verification_gas_limit
        × Stays op.paymaster_post_op_gas_limit (fill_paymaster op).paymaster_post_op_gas_limit
  unfolding fill_paymaster
  fill_paymaster-Stays op = elim (Option-cases op.paymaster) [
    | inl e ↦
        rw e (
          Stays-refl op.paymaster_verification_gas_limit,
          Stays-refl op.paymaster_post_op_gas_limit,
        )
    | inr (paymaster, e) ↦ rw e (
      Stays-or_else 300000 op.paymaster_verification_gas_limit,
      Stays-or_else 0 op.paymaster_post_op_gas_limit,
    )
  ]

  -- The other fields are none of the paymaster's limits.
  fill_paymaster-others :
      (op : PartialOp)
      → ((fill_paymaster op).sender ≡ op.sender)
        × ((fill_paymaster op).init_code ≡ op.init_code)
        × ((fill_paymaster op).call_data ≡ op.call_data)
        × ((fill_paymaster op).verification_gas_limit ≡ op.verification_gas_limit)
        × ((fill_paymaster op).pre_verification_gas ≡ op.pre_verification_gas)
        × ((fill_paymaster op).paymaster ≡ op.paymaster)
        × ((fill_paymaster op).paymaster_data ≡ op.paymaster_data)
        × ((fill_paymaster op).signature ≡ op.signature)
  unfolding fill_paymaster
  fill_paymaster-others op = elim (Option-cases op.paymaster) [
    | inl e ↦ rw e (refl, refl, refl, refl, refl, refl, refl, refl)
    | inr (paymaster, e) ↦ rw e (refl, refl, refl, refl, refl, refl, refl, refl)
  ]

  pub fill_fields-Extends :
      (given_sender : Option Address) (op : PartialOp) {filled : PartialOp}
      → fill_fields entry given_sender op ≡ returned filled
      → Extends op filled
  unfolding fill_fields
  fill_fields-Extends given_sender op h =
      let find = find_nonce entry given_sender in
      let fee = find_max_fee entry op.max_priority_fee_per_gas in
      let (nonce, finds, h1) = >>=-eq-returned (or_find find op.nonce) _ h in
      let (limit, limits, h2) = >>=-eq-returned (find_call_gas entry op) _ h1 in
      let (max_fee, fees, h3) = >>=-eq-returned (or_find fee op.max_fee_per_gas) _ h2 in
      let (s, i, d, v, g, p, pd, sg) = fill_paymaster-others op in
      let (verification, post_op) = fill_paymaster-Stays op in
      rw (← returned-injective h3) (record {
        sender = subst (λ x. Stays op.sender x) (sym s) (Stays-refl op.sender);
        nonce = Stays-or_find find op.nonce finds;
        init_code = i;
        call_data = d;
        call_gas_limit = find_call_gas-Stays op limits;
        verification_gas_limit =
            subst (λ x. Stays op.verification_gas_limit x) (sym v)
              (Stays-refl op.verification_gas_limit);
        pre_verification_gas = g;
        max_fee_per_gas = Stays-or_find fee op.max_fee_per_gas fees;
        max_priority_fee_per_gas = Stays-or_else 1000000000 op.max_priority_fee_per_gas;
        paymaster = p;
        paymaster_verification_gas_limit = verification;
        paymaster_post_op_gas_limit = post_op;
        paymaster_data = pd;
        signature = sg;
      })
