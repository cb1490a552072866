-- ===== src/Client/Operation/Fill/Signed.antt =====
-- What `fillSignAndPack` of lib/account-abstraction/test/UserOp.ts signs.
use bounded_spending_account.Prelude.{ℕ, ◌≡◌, false, refl, ap, sym, ◌∙◌, subst, Option}
use bounded_spending_account.Solidity.{Address}
use bounded_spending_account.Solidity.Bytes.{Bytes}
use bounded_spending_account.UserOp.{PackedUserOperation}
use bounded_spending_account.Client.{Try, returned, >>=-eq-returned, returned-injective}
use bounded_spending_account.Client.Operation.{
  UserOperation, pack_account_gas_limits, packed_paymaster, pack_user_op,
}
use bounded_spending_account.Client.Operation.Packing.{pack_user_op_unpacks}
use bounded_spending_account.Client.Operation.Fill.{PartialOp, Node, is_eip7702_code, fill_user_op}
use bounded_spending_account.Client.Operation.Fill.Sign.{
  provider_of, async_sign_user_op, fill_and_sign, fill_sign_and_pack,
}

packed_paymaster-signature :
    (op : UserOperation) (signature : Bytes)
    → packed_paymaster (record op { signature = signature }) ≡ packed_paymaster op
unfolding packed_paymaster
packed_paymaster-signature op signature = refl

pack_parts :
    (op : UserOperation) (signature : Bytes) {packed : PackedUserOperation} {limits fees : ℕ}
    {paymaster : Bytes}
    → pack_account_gas_limits op.verification_gas_limit op.call_gas_limit ≡ returned limits
    → pack_account_gas_limits op.max_priority_fee_per_gas op.max_fee_per_gas ≡ returned fees
    → packed_paymaster op ≡ returned paymaster
    → pack_user_op op ≡ returned packed
    → pack_user_op (record op { signature = signature })
      ≡ returned (record packed { signature = signature })
unfolding pack_user_op
pack_parts op signature e1 e2 e3 h =
    let h' = returned-injective (rw (e1, e2, e3) at h) in
    rw (packed_paymaster-signature, e1, e2, e3)
      (ap {A = PackedUserOperation} (λ x. returned (record x { signature = signature })) h')

-- The signature does not change how the rest of an operation is packed.
pack_user_op-signature :
    (op : UserOperation) (signature : Bytes) {packed : PackedUserOperation}
    → pack_user_op op ≡ returned packed
    → pack_user_op (record op { signature = signature })
      ≡ returned (record packed { signature = signature })
unfolding pack_user_op
pack_user_op-signature op signature h =
    let (limits, e1, h1) =
      >>=-eq-returned (pack_account_gas_limits op.verification_gas_limit op.call_gas_limit) _ h in
    let (fees, e2, h2) =
      >>=-eq-returned (pack_account_gas_limits op.max_priority_fee_per_gas op.max_fee_per_gas) _
        h1 in
    let (paymaster, e3, _) = >>=-eq-returned (packed_paymaster op) _ h2 in
    pack_parts op signature e1 e2 e3 h

module _ (known_address : Bytes → ℕ → Address) (encode_user_op : UserOperation → Try Bytes)
    (sign_typed_data : PackedUserOperation → Try Bytes) (entry : Option Node)
    (delegate : Option Address) where
  -- What is signed, of an operation that is not of EIP-7702.
  async_sign_user_op-signs :
      (op : UserOperation) {signature : Bytes}
      → is_eip7702_code op.init_code ≡ false
      → async_sign_user_op sign_typed_data entry delegate op ≡ returned signature
      → (packed : PackedUserOperation) × (pack_user_op op ≡ returned packed)
        × (sign_typed_data packed ≡ returned signature)
  unfolding async_sign_user_op
  async_sign_user_op-signs op plain h =
      let (node, _, h1) = >>=-eq-returned (provider_of entry) _ h in
      >>=-eq-returned (pack_user_op op) sign_typed_data (rw plain at h1)

  -- An operation that `fillSignAndPack` returns, with an init code that is not of EIP-7702, is the
  -- very one that was given to be signed, but for the field of the signature; and it carries the
  -- signature that was the answer.
  pub sent_operation_was_signed :
      (op : PartialOp) {sent : PackedUserOperation}
      → fill_sign_and_pack known_address encode_user_op sign_typed_data entry delegate op
        ≡ returned sent
      → is_eip7702_code sent.init_code ≡ false
      → (unsigned : Bytes) × (sign_typed_data (record sent { signature = unsigned })
          ≡ returned sent.signature)
  unfolding fill_sign_and_pack fill_and_sign
  sent_operation_was_signed op {sent} h plain =
      let (signed, e1, packs_signed) =
        >>=-eq-returned
          (fill_and_sign known_address encode_user_op sign_typed_data entry delegate op) _ h in
      let (filled, _, h2) =
        >>=-eq-returned (fill_user_op known_address encode_user_op entry delegate op) _ e1 in
      let (signature, signs, h3) =
        >>=-eq-returned (async_sign_user_op sign_typed_data entry delegate filled) _ h2 in
      let e = returned-injective h3 in
      let same : sent.init_code ≡ filled.init_code =
        (pack_user_op_unpacks signed packs_signed).6 ∙ ap (λ x. x.init_code) (sym e) in
      let (packed, packs, signs_packed) =
        async_sign_user_op-signs filled (subst (λ x. is_eip7702_code x ≡ false) same plain) signs in
      let is : record packed { signature = signature } ≡ sent =
        returned-injective (
          sym (pack_user_op-signature filled signature packs) ∙ ap pack_user_op e ∙ packs_signed) in
      (
        packed.signature,
        subst
            (λ x.
              sign_typed_data (record x { signature = packed.signature }) ≡ returned x.signature)
            is signs_packed,
      )
