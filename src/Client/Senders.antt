-- ===== src/Client/Senders.antt =====
-- `rpcUserOpSender` and `localUserOpSender` of lib/account-abstraction/src/AASigner.ts. What the
-- node and the entry point answer is a parameter; logging is left out.
pub mod Values
use bounded_spending_account.Prelude.{
  ℕ, zero, suc, ◌*◌, ◌/◌, ◌%◌, List, [], ◌∷◌, Option, none, some, ◌==◌, if◌then◌else◌,
}
use bounded_spending_account.Solidity.{Address}
use bounded_spending_account.UserOp.{PackedUserOperation}
use bounded_spending_account.Client.{Try, returned, throws, ◌>>=◌, invalid_value}
use bounded_spending_account.Client.Operation.{UserOperation, pack_user_op}

-- The value of a field: a hex string, given by its digits after `0x`; a number or `BigNumber`; any
-- other value, of which ethers makes no hex string.
pub data Value : Type 0 where
  hex : List ℕ → Value
  number : ℕ → Value
  other : Value

-- The hex digits of `n` in front of others, none for 0, in at most so many rounds.
unfoldable pub digits_onto : ℕ → ℕ → List ℕ → List ℕ
digits_onto zero n digits = digits
digits_onto (suc rounds) n digits =
    let shifted = digits_onto rounds (n / 16) ((n % 16) ∷ digits) in
    if n == 0 then digits else shifted

-- `hexValue` of a number below 2^256: 64 rounds are enough
unfoldable pub hex_value : ℕ → List ℕ
hex_value n = if n == 0 then 0 ∷ [] else digits_onto 64 n []

-- One round of the loop that makes `cleanUserOp`.
unfoldable pub clean_value : Value → Try (List ℕ)
unfolding hex_value
clean_value (hex digits) = returned digits
clean_value (number n) = returned (hex_value n)
clean_value other = throws invalid_value

-- The fields of an object, by keys of any type.
abbrev pub Fields : Type 0 → Type 0 → Type 0
Fields Key Field = List (Key × Field)

-- `cleanUserOp`
unfoldable pub clean_user_op : {Key : Type 0} → Fields Key Value → Try (Fields Key (List ℕ))
unfolding clean_value
clean_user_op [] = returned []
clean_user_op ((key, value) ∷ fields) = do
  cleaned ← clean_value value
  rest ← clean_user_op fields
  returned ((key, cleaned) ∷ rest)

-- The function that `rpcUserOpSender` returns: the chain id that it keeps, asked for only once, and
-- the node after the request.
unfoldable pub rpc_user_op_sender :
    {Key Node : Type 0}
    → (Node → Try (ℕ × Node))
    → (Fields Key (List ℕ) → Address → Node → Try Node)
    → Address
    → Option ℕ
    → Fields Key Value
    → Node
    → Try (Option ℕ × Node)
unfolding clean_user_op
rpc_user_op_sender get_chain_id send entry_point (some chain_id) fields node = do
  cleaned ← clean_user_op fields
  after ← send cleaned entry_point node
  returned (some chain_id, after)
rpc_user_op_sender get_chain_id send entry_point none fields node = do
  (chain_id, asked) ← get_chain_id node
  cleaned ← clean_user_op fields
  after ← send cleaned entry_point asked
  returned (some chain_id, after)

-- `beneficiary ?? await signer.getAddress()`
unfoldable pub beneficiary_or : Address → Option Address → Address
beneficiary_or signer none = signer
beneficiary_or signer (some beneficiary) = beneficiary

-- The function that `localUserOpSender` returns: one operation for `handleOps`, with its fees.
unfoldable pub local_user_op_sender :
    {Node : Type 0}
    → (List PackedUserOperation → Address → ℕ → ℕ → Node → Try Node)
    → Address
    → Option Address
    → UserOperation
    → Node
    → Try Node
unfolding beneficiary_or
local_user_op_sender handle_ops signer beneficiary op node = do
  packed ← pack_user_op op
  handle_ops (packed ∷ []) (beneficiary_or signer beneficiary) op.max_priority_fee_per_gas
      op.max_fee_per_gas node
