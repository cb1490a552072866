-- ===== src/Paymaster/Collects.antt =====
-- What src/SpendingPaymaster.sol has validated, and what it collects afterwards.
use bounded_spending_account.Prelude.{
  ℕ, ◌≤◌, ◌<◌, ◌≡◌, ◌^◌, ap, sym, ◌∙◌, length, not, ltb, leb→ltb, ==_iff, ◌==◌, arith, refl,
}
use bounded_spending_account.Solidity.{
  Address, sender_not_entry_point, cost_cap_exceeded, insufficient_usdc_balance, Result, ok,
}
use bounded_spending_account.Solidity.Laws.{>>=-eq-ok, revert_if-eq-ok, ok-injective}
use bounded_spending_account.Solidity.Bytes.{Bytes, to_be, length-to_be}
use bounded_spending_account.Solidity.Abi.Encoding.{decode_address-to_be}
use bounded_spending_account.UserOp.{
  PackedUserOperation, paymaster_data_offset, unpack_post_op_gas_limit,
}
use bounded_spending_account.UserOp.Cost.{cost_in_usdc}
use bounded_spending_account.UserOp.Cost.Bounds.{price, cost_in_usdc-eq-ok, cost_in_usdc-le}
use bounded_spending_account.Account.Entry.{sig_validation_success}
use bounded_spending_account.Paymaster.{
  Paymaster, PostOpMode, max_cost_cap, min_post_op_gas, check_post_op_gas,
  validate_paymaster_user_op_internal, validate_paymaster_user_op, post_op_internal, post_op,
}

-- An accepted operation: the entry point asks, the cost is capped, the account holds the price of
-- the whole cost with the premium, and there is gas for `postOp` where its limit is given.
pub record IsAccepted (p : Paymaster) (usdc_balance : Address → ℕ) (sender : Address)
    (op : PackedUserOperation) (max_cost : ℕ) (context : Bytes) (validation_data : ℕ) : Type 0 where
  pub from_entry_point : sender ≡ p.entry_point
  pub capped : max_cost ≤ max_cost_cap
  pub priced : cost_in_usdc p.usdc_per_eth max_cost ≡ ok (price p.usdc_per_eth max_cost)
  pub covered : price p.usdc_per_eth max_cost ≤ usdc_balance op.sender
  pub gas :
      paymaster_data_offset ≤ length op.paymaster_and_data
      → min_post_op_gas ≤ unpack_post_op_gas_limit op
  pub context_of_sender : context ≡ to_be 32 op.sender
  pub success : validation_data ≡ sig_validation_success

-- An operation that the paymaster accepts has passed all its tests: the entry point asks, the cost
-- is at most the cap, the account holds its price with the premium, the gas limit for `postOp` is
-- large enough where it is given; the context is the account.
pub validate_paymaster_user_op-IsAccepted :
    (p : Paymaster) (usdc_balance : Address → ℕ) (sender : Address) (op : PackedUserOperation)
    (max_cost : ℕ) {context : Bytes} {validation_data : ℕ}
    → validate_paymaster_user_op p usdc_balance sender op max_cost ≡ ok (context, validation_data)
    → IsAccepted p usdc_balance sender op max_cost context validation_data
unfolding validate_paymaster_user_op validate_paymaster_user_op_internal check_post_op_gas
validate_paymaster_user_op-IsAccepted p usdc_balance sender op max_cost h =
    let (from, h1) = revert_if-eq-ok (not (sender == p.entry_point)) sender_not_entry_point _ h in
    let (u, gas, h2) = >>=-eq-ok (check_post_op_gas op) _ h1 in
    let (low, h3) =
      revert_if-eq-ok (ltb max_cost_cap max_cost) (cost_cap_exceeded max_cost max_cost_cap) _ h2 in
    let (cost, prices, h4) = >>=-eq-ok (cost_in_usdc p.usdc_per_eth max_cost) _ h3 in
    let short = insufficient_usdc_balance op.sender cost in
    let (holds, h5) = revert_if-eq-ok (ltb (usdc_balance op.sender) cost) short _ h4 in
    let exact = (cost_in_usdc-eq-ok p.usdc_per_eth max_cost prices).0 in
    record {
      from_entry_point = ground arith;
      capped = ground arith;
      priced = prices ∙ ap (λ k. ok k) exact;
      covered = ground arith;
      gas = λ long. ground arith;
      context_of_sender = sym (ap (λ x. x.0) (ok-injective h5));
      success = sym (ap (λ x. x.1) (ok-injective h5));
    }

-- After an accepted operation of a sender with an address of 20 bytes, for any actual cost up to
-- the validated one, `postOp` charges the very account of the operation exactly the price of the
-- actual cost with the premium, and the account's USDC at the time of the validation covers that.
pub accepted_cost_is_collected :
    {W : Type 0} (pay_for_gas : Address → ℕ → W → Result W) (p : Paymaster)
    (usdc_balance : Address → ℕ) (sender : Address) (op : PackedUserOperation)
    (max_cost actual fee : ℕ) (mode : PostOpMode) (w : W) {context : Bytes} {validation_data : ℕ}
    → op.sender < 2 ^ 160
    → validate_paymaster_user_op p usdc_balance sender op max_cost ≡ ok (context, validation_data)
    → actual ≤ max_cost
    → (post_op pay_for_gas p p.entry_point mode context actual fee w
        ≡ pay_for_gas op.sender (price p.usdc_per_eth actual) w)
      × (price p.usdc_per_eth actual ≤ usdc_balance op.sender)
unfolding post_op post_op_internal
accepted_cost_is_collected pay_for_gas p usdc_balance sender op max_cost actual fee mode w {context}
      b h le =
    let a = validate_paymaster_user_op-IsAccepted p usdc_balance sender op max_cost h in
    let (prices, cheaper) = cost_in_usdc-le p.usdc_per_eth actual max_cost le a.priced in
    let long =
      leb→ltb (length (to_be 32 op.sender)) 32 (omega (arith, length-to_be 32 op.sender)) in
    (
      rw (a.context_of_sender, (==_iff p.entry_point p.entry_point).1 refl, long)
          (rw (decode_address-to_be op.sender b, prices)),
      omega (arith, a.covered),
    )
