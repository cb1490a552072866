-- ===== src/Client/Operation/Packing.antt =====
-- What `packUserOp` of lib/account-abstraction/test/UserOp.ts packs is what UserOperationLib.sol
-- and src/SpendingAccount.sol unpack.
use mathlib.Core.List.{append_assoc}
use bounded_spending_account.Prelude.{
  ℕ, ◌+◌, ◌*◌, ◌^◌, ◌≤◌, ◌<◌, ◌≡◌, ◌≢◌, true, refl, ap, sym, ◌∙◌, subst, arith, none, some, [],
  ◌++◌, length, take, drop, length-append, take-append, drop-append, leb,
}
use bounded_spending_account.Solidity.{Address, ok}
use bounded_spending_account.Solidity.Bytes.{
  Bytes, from_be, from_be_onto, to_be, length-to_be, from_be-to_be, from_be_onto-to_be,
  from_be_onto-append,
}
use bounded_spending_account.UserOp.{
  PackedUserOperation, unpack_high128, unpack_low128, unpack_verification_gas_limit,
  unpack_call_gas_limit, unpack_paymaster, unpack_paymaster_verification_gas_limit,
  unpack_post_op_gas_limit, paymaster_data_offset,
}
use bounded_spending_account.UserOp.Cost.{get_usdc_gas_cost_if_paymaster}
use bounded_spending_account.Client.{
  returned, value_out_of_range, >>=-eq-returned, throw_if-eq-returned, returned-injective,
}
use bounded_spending_account.Client.Operation.{
  UserOperation, pad16, pack_account_gas_limits, pack_paymaster_data, has_paymaster,
  packed_paymaster, pack_user_op,
}

pad16-eq-returned : (n : ℕ) {bs : Bytes} → pad16 n ≡ returned bs → (bs ≡ to_be 16 n) × (n < 2 ^ 128)
unfolding pad16
pad16-eq-returned n h =
    let (low, e) = throw_if-eq-returned (leb (2 ^ 128) n) value_out_of_range _ h in
    (sym (returned-injective e), ground arith)

two_halves :
    (high low : ℕ)
    → high < 2 ^ 128
    → low < 2 ^ 128
    → from_be (to_be 16 high ++ to_be 16 low) ≡ high * 2 ^ 128 + low
unfolding from_be
two_halves high low h l =
    from_be_onto-append 0 (to_be 16 high) (to_be 16 low)
    ∙ ap (λ k. from_be_onto k (to_be 16 low)) (from_be_onto-to_be 16 high 0 (omega arith))
    ∙ from_be_onto-to_be 16 low (0 + high) (omega arith)
    ∙ omega arith

-- Two packed halves are unpacked.
pack_account_gas_limits-eq-returned :
    (high low : ℕ) {packed : ℕ}
    → pack_account_gas_limits high low ≡ returned packed
    → (unpack_high128 packed ≡ high) × (unpack_low128 packed ≡ low)
unfolding pack_account_gas_limits unpack_high128 unpack_low128
pack_account_gas_limits-eq-returned high low {packed} h =
    let (first, pads, h1) = >>=-eq-returned (pad16 high) _ h in
    let (second, pads', h2) = >>=-eq-returned (pad16 low) _ h1 in
    let (e, fits) = pad16-eq-returned high pads in
    let (e', fits') = pad16-eq-returned low pads' in
    let value : packed ≡ high * 2 ^ 128 + low =
      sym (returned-injective h2)
      ∙ ap (λ bs. from_be (bs ++ second)) e
      ∙ ap (λ bs. from_be (to_be 16 high ++ bs)) e'
      ∙ two_halves high low fits fits' in
    (omega arith, omega arith)

-- What a successful `packUserOp` leaves of an operation.
record IsPacked (op : UserOperation) (p : PackedUserOperation) : Type 0 where
  limits :
      (unpack_high128 p.account_gas_limits ≡ op.verification_gas_limit)
      × (unpack_low128 p.account_gas_limits ≡ op.call_gas_limit)
  fees :
      (unpack_high128 p.gas_fees ≡ op.max_priority_fee_per_gas)
      × (unpack_low128 p.gas_fees ≡ op.max_fee_per_gas)
  paymaster : packed_paymaster op ≡ returned p.paymaster_and_data
  same :
      (p.sender ≡ op.sender)
      × (p.nonce ≡ op.nonce)
      × (p.init_code ≡ op.init_code)
      × (p.call_data ≡ op.call_data)
      × (p.pre_verification_gas ≡ op.pre_verification_gas)
      × (p.signature ≡ op.signature)

pack_user_op-IsPacked :
    (op : UserOperation) {p : PackedUserOperation} → pack_user_op op ≡ returned p → IsPacked op p
unfolding pack_user_op
pack_user_op-IsPacked op {p} h =
    let limits = pack_account_gas_limits op.verification_gas_limit op.call_gas_limit in
    let fees = pack_account_gas_limits op.max_priority_fee_per_gas op.max_fee_per_gas in
    let (l, packs, h1) = >>=-eq-returned limits _ h in
    let (f, packs', h2) = >>=-eq-returned fees _ h1 in
    let (bytes, packs'', h3) = >>=-eq-returned (packed_paymaster op) _ h2 in
    let e = returned-injective h3 in
    subst (λ x. IsPacked op x) e
      (record {
        limits = pack_account_gas_limits-eq-returned _ _ packs;
        fees = pack_account_gas_limits-eq-returned _ _ packs';
        paymaster = packs'';
        same = (refl, refl, refl, refl, refl, refl);
      })

-- A packed operation is unpacked on chain: the two gas limits and the two fees are those that were
-- given, each in its half of a word, and all other fields but the paymaster's are the same.
pub pack_user_op_unpacks :
    (op : UserOperation) {p : PackedUserOperation}
    → pack_user_op op ≡ returned p
    → (unpack_verification_gas_limit p ≡ op.verification_gas_limit)
      × (unpack_call_gas_limit p ≡ op.call_gas_limit)
      × (unpack_high128 p.gas_fees ≡ op.max_priority_fee_per_gas)
      × (unpack_low128 p.gas_fees ≡ op.max_fee_per_gas)
      × (p.sender ≡ op.sender)
      × (p.nonce ≡ op.nonce)
      × (p.init_code ≡ op.init_code)
      × (p.call_data ≡ op.call_data)
      × (p.pre_verification_gas ≡ op.pre_verification_gas)
      × (p.signature ≡ op.signature)
unfolding unpack_verification_gas_limit unpack_call_gas_limit
pack_user_op_unpacks op h =
    let i = pack_user_op-IsPacked op h in
    (
      i.limits.0, i.limits.1, i.fees.0, i.fees.1, i.same.0, i.same.1, i.same.2, i.same.3, i.same.4,
      i.same.5,
    )

take-of : (k : ℕ) (xs ys : Bytes) → length xs ≡ k → take k (xs ++ ys) ≡ xs
take-of k xs ys e = subst (λ n. take n (xs ++ ys) ≡ xs) e (take-append xs ys)

drop-of : (k : ℕ) (xs ys : Bytes) → length xs ≡ k → drop k (xs ++ ys) ≡ ys
drop-of k xs ys e = subst (λ n. drop n (xs ++ ys) ≡ ys) e (drop-append xs ys)

-- The bytes of a paymaster with its gas limits and data.
paymaster_bytes : Bytes → ℕ → ℕ → Bytes → Bytes
paymaster_bytes paymaster verification post_op rest =
    paymaster ++ (to_be 16 verification ++ (to_be 16 post_op ++ rest))

pack_paymaster_data-eq-returned :
    (paymaster : Bytes) (verification post_op : ℕ) (rest : Bytes) {bs : Bytes}
    → pack_paymaster_data paymaster verification post_op rest ≡ returned bs
    → (bs ≡ paymaster_bytes paymaster verification post_op rest)
      × (verification < 2 ^ 128)
      × (post_op < 2 ^ 128)
unfolding pack_paymaster_data paymaster_bytes
pack_paymaster_data-eq-returned paymaster verification post_op rest h =
    let (first, pads, h1) = >>=-eq-returned (pad16 verification) _ h in
    let (second, pads', h2) = >>=-eq-returned (pad16 post_op) _ h1 in
    let (e, fits) = pad16-eq-returned verification pads in
    let (e', fits') = pad16-eq-returned post_op pads' in
    (
      sym (returned-injective h2)
          ∙ ap (λ x. paymaster ++ (x ++ (second ++ rest))) e
          ∙ ap (λ x. paymaster ++ (to_be 16 verification ++ (x ++ rest))) e',
      fits,
      fits',
    )

-- The three fields of a paymaster's bytes, where its address has 20 bytes.
paymaster_bytes-fields :
    (paymaster : Bytes) (verification post_op : ℕ) (rest : Bytes)
    → length paymaster ≡ 20
    → (take 20 (paymaster_bytes paymaster verification post_op rest) ≡ paymaster)
      × (take 16 (drop 20 (paymaster_bytes paymaster verification post_op rest))
          ≡ to_be 16 verification)
      × (take 16 (drop 36 (paymaster_bytes paymaster verification post_op rest)) ≡ to_be 16 post_op)
      × (52 ≤ length (paymaster_bytes paymaster verification post_op rest))
unfolding paymaster_bytes
paymaster_bytes-fields paymaster verification post_op rest twenty =
    let v = to_be 16 verification in
    let o = to_be 16 post_op in
    let lv = length-to_be 16 verification in
    let lo = length-to_be 16 post_op in
    let front : length (paymaster ++ v) ≡ 36 = omega (arith, length-append paymaster v) in
    let shifted : drop 36 (paymaster ++ (v ++ (o ++ rest))) ≡ o ++ rest =
      ap (λ x. drop 36 x) (sym (append_assoc paymaster v (o ++ rest)))
      ∙ drop-of 36 (paymaster ++ v) (o ++ rest) front in
    (
      take-of 20 paymaster (v ++ (o ++ rest)) twenty,
      ap (λ x. take 16 x) (drop-of 20 paymaster (v ++ (o ++ rest)) twenty)
          ∙ take-of 16 v (o ++ rest) lv,
      ap (λ x. take 16 x) shifted ∙ take-of 16 o rest lo,
      omega (
        arith,
        length-append paymaster (v ++ (o ++ rest)),
        length-append v (o ++ rest),
        length-append o rest,
      ),
    )

has_paymaster_address :
    (paymaster : Bytes)
    → length paymaster ≡ 20
    → from_be paymaster ≢ 0
    → has_paymaster paymaster ≡ true
unfolding has_paymaster
has_paymaster_address paymaster twenty nonzero = ground arith

-- A paymaster of 20 bytes other than the zero address is unpacked on chain, with its two gas
-- limits, from a packed operation.
pub pack_user_op_unpacks_paymaster :
    (op : UserOperation) (paymaster : Bytes) {p : PackedUserOperation}
    → op.paymaster ≡ some paymaster
    → length paymaster ≡ 20
    → from_be paymaster ≢ 0
    → pack_user_op op ≡ returned p
    → (paymaster_data_offset ≤ length p.paymaster_and_data)
      × (unpack_paymaster p ≡ from_be paymaster)
      × (unpack_paymaster_verification_gas_limit p ≡ op.paymaster_verification_gas_limit)
      × (unpack_post_op_gas_limit p ≡ op.paymaster_post_op_gas_limit)
unfolding packed_paymaster unpack_paymaster unpack_paymaster_verification_gas_limit
    unpack_post_op_gas_limit
pack_user_op_unpacks_paymaster op paymaster {p} given twenty nonzero h =
    let v = op.paymaster_verification_gas_limit in
    let o = op.paymaster_post_op_gas_limit in
    let accepted : has_paymaster paymaster ≡ true =
      has_paymaster_address paymaster twenty nonzero in
    let packs : pack_paymaster_data paymaster v o op.paymaster_data
        ≡ returned p.paymaster_and_data =
      rw (given, accepted) at (pack_user_op-IsPacked op h).paymaster in
    let (e, fits, fits') = pack_paymaster_data-eq-returned paymaster v o op.paymaster_data packs in
    let (f1, f2, f3, f4) = paymaster_bytes-fields paymaster v o op.paymaster_data twenty in
    rw e (
      f4,
      ap from_be f1,
      ap from_be f2 ∙ from_be-to_be 16 v (omega arith),
      ap from_be f3 ∙ from_be-to_be 16 o (omega arith),
    )

-- An operation without a paymaster is packed so that the preflight of the account adds no price of
-- gas in USDC, whatever paymaster the account has.
pub pack_user_op_without_paymaster :
    (op : UserOperation) {p : PackedUserOperation} (own_paymaster : Address) (rate basefee : ℕ)
    → op.paymaster ≡ none
    → pack_user_op op ≡ returned p
    → get_usdc_gas_cost_if_paymaster own_paymaster rate basefee p ≡ ok 0
unfolding packed_paymaster get_usdc_gas_cost_if_paymaster
pack_user_op_without_paymaster op {p} own_paymaster rate basefee absent h =
    let packs : returned [] ≡ returned p.paymaster_and_data =
      rw absent at (pack_user_op-IsPacked op h).paymaster in
    rw (sym (returned-injective packs)) refl
