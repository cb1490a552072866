-- ===== src/Client/Operation/Fill/Given.antt =====
-- What `fillUserOp` of lib/account-abstraction/test/UserOp.ts keeps of the fields that it is given.
use bounded_spending_account.Prelude.{
  ℕ, ◌≡◌, ◌≢◌, ap, subst, inl, inr, true, Option, none, some, ◌==◌, Bool-cases, replicate, [],
  ==_iff,
}
use bounded_spending_account.Solidity.{Address}
use bounded_spending_account.Solidity.Bytes.{Bytes}
use bounded_spending_account.Client.{Try, returned, >>=-eq-returned, returned-injective}
use bounded_spending_account.Client.Operation.{UserOperation}
use bounded_spending_account.Client.Operation.Fill.{
  PartialOp, Node, or_else, fill_init, fill_fields, fill_user_op_defaults, fill_pre_verification,
  call_data_cost, fill_user_op,
}
use bounded_spending_account.Client.Operation.Fill.Extends.{Stays, Extends, Stays-eq, Extends-trans}
use bounded_spending_account.Client.Operation.Fill.Steps.{fill_init-Extends, fill_fields-Extends}

-- A field of the filled operation is the one that was given.
abbrev pub IsKept : {A : Type 0} → Option A → A → Type 0
IsKept none field = Unit
IsKept (some given) field = field ≡ given

IsKept-or_else :
    {A : Type 0} (default : A) (o o' : Option A) → Stays o o' → IsKept o (or_else default o')
IsKept-or_else default none o' h = tt
IsKept-or_else default (some a) o' h = ap (λ x. or_else default x) h

pub record KeepsGiven (op : PartialOp) (filled : UserOperation) : Type 0 where
  pub sender : IsKept op.sender filled.sender
  pub nonce : IsKept op.nonce filled.nonce
  pub init_code : IsKept op.init_code filled.init_code
  pub call_data : IsKept op.call_data filled.call_data
  pub call_gas_limit : IsKept op.call_gas_limit filled.call_gas_limit
  pub verification_gas_limit : IsKept op.verification_gas_limit filled.verification_gas_limit
  pub pre_verification_gas :
      op.pre_verification_gas ≢ some 0 → IsKept op.pre_verification_gas filled.pre_verification_gas
  pub max_fee_per_gas : IsKept op.max_fee_per_gas filled.max_fee_per_gas
  pub max_priority_fee_per_gas : IsKept op.max_priority_fee_per_gas filled.max_priority_fee_per_gas
  pub paymaster : filled.paymaster ≡ some (or_else (replicate 20 0) op.paymaster)
  pub paymaster_verification_gas_limit :
      IsKept op.paymaster_verification_gas_limit filled.paymaster_verification_gas_limit
  pub paymaster_post_op_gas_limit :
      IsKept op.paymaster_post_op_gas_limit filled.paymaster_post_op_gas_limit
  pub paymaster_data : IsKept op.paymaster_data filled.paymaster_data
  pub signature : IsKept op.signature filled.signature

defaults-KeepsGiven :
    (op filled : PartialOp) (pre : ℕ)
    → Extends op filled
    → (op.pre_verification_gas ≢ some 0 → IsKept op.pre_verification_gas pre)
    → KeepsGiven op (record (fill_user_op_defaults filled) { pre_verification_gas = pre })
unfolding fill_user_op_defaults
defaults-KeepsGiven op filled pre x kept = record {
  sender = IsKept-or_else 0 op.sender filled.sender x.sender;
  nonce = IsKept-or_else 0 op.nonce filled.nonce x.nonce;
  init_code = IsKept-or_else [] op.init_code filled.init_code (Stays-eq x.init_code);
  call_data = IsKept-or_else [] op.call_data filled.call_data (Stays-eq x.call_data);
  call_gas_limit = IsKept-or_else 0 op.call_gas_limit filled.call_gas_limit x.call_gas_limit;
  verification_gas_limit =
      IsKept-or_else 150000 op.verification_gas_limit filled.verification_gas_limit
        x.verification_gas_limit;
  pre_verification_gas = kept;
  max_fee_per_gas = IsKept-or_else 0 op.max_fee_per_gas filled.max_fee_per_gas x.max_fee_per_gas;
  max_priority_fee_per_gas =
      IsKept-or_else 1000000000 op.max_priority_fee_per_gas filled.max_priority_fee_per_gas
        x.max_priority_fee_per_gas;
  paymaster = ap (λ o. some (or_else (replicate 20 0) o)) x.paymaster;
  paymaster_verification_gas_limit =
      IsKept-or_else 300000 op.paymaster_verification_gas_limit
        filled.paymaster_verification_gas_limit x.paymaster_verification_gas_limit;
  paymaster_post_op_gas_limit =
      IsKept-or_else 0 op.paymaster_post_op_gas_limit filled.paymaster_post_op_gas_limit
        x.paymaster_post_op_gas_limit;
  paymaster_data =
      IsKept-or_else [] op.paymaster_data filled.paymaster_data (Stays-eq x.paymaster_data);
  signature = IsKept-or_else [] op.signature filled.signature (Stays-eq x.signature);
}

replaced_zero :
    (o : Option ℕ) (cost : ℕ) → (or_else 21000 o == 0) ≡ true → o ≢ some 0 → IsKept o cost
replaced_zero none cost zero other = tt
replaced_zero (some n) cost zero other = absurd (other (ap some ((==_iff n 0).0 zero)))

module _ (known_address : Bytes → ℕ → Address) (encode_user_op : UserOperation → Try Bytes) where
  -- An operation that is filled in has every field that it was given, but for a gas limit of 0 for
  -- the work before the verification, which is replaced; the paymaster is the zero address where
  -- none was given.
  pub fill_user_op-KeepsGiven :
      (entry : Option Node) (delegate : Option Address) (op : PartialOp) {result : UserOperation}
      → fill_user_op known_address encode_user_op entry delegate op ≡ returned result
      → KeepsGiven op result
  unfolding fill_user_op fill_pre_verification fill_user_op_defaults
  fill_user_op-KeepsGiven entry delegate op h =
      let (created, creates, h1) =
        >>=-eq-returned (fill_init known_address entry delegate op) _ h in
      let (filled, fills, h2) = >>=-eq-returned (fill_fields entry op.sender created) _ h1 in
      let x =
        Extends-trans op created filled (fill_init-Extends known_address entry delegate op creates)
          (fill_fields-Extends known_address entry op.sender created fills) in
      let pre = or_else 21000 filled.pre_verification_gas in
      elim (Bool-cases (pre == 0)) [
        | inl zero ↦
            let (encoded, _, h3) =
              >>=-eq-returned (encode_user_op (fill_user_op_defaults filled)) _ (rw zero at h2) in
            let (cost, _, h4) = >>=-eq-returned (call_data_cost encoded) _ h3 in
            subst (λ y. KeepsGiven op y) (returned-injective h4)
              (defaults-KeepsGiven op filled cost x (
                replaced_zero op.pre_verification_gas cost
                  (subst (λ o. (or_else 21000 o == 0) ≡ true) x.pre_verification_gas zero)))
        | inr other ↦
            subst (λ y. KeepsGiven op y) (returned-injective (rw other at h2))
              (defaults-KeepsGiven op filled pre x (λ _.
                IsKept-or_else 21000 op.pre_verification_gas filled.pre_verification_gas
                  (Stays-eq x.pre_verification_gas)))
      ]
