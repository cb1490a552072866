-- ===== src/Client/Operation/Fill/Sign.antt =====
-- How lib/account-abstraction/test/UserOp.ts packs and signs an operation that is filled in:
-- `asyncSignUserOp`, `fillAndSign`, `fillAndPack` and `fillSignAndPack`. The signer is a parameter.
use bounded_spending_account.Prelude.{
  ℕ, [], ◌∷◌, ◌++◌, Option, none, some, length, drop, ltb, not, ◌&&◌, ◌==◌, if◌then◌else◌,
}
use bounded_spending_account.Solidity.{Address}
use bounded_spending_account.Solidity.Bytes.{Bytes, to_be}
use bounded_spending_account.UserOp.{PackedUserOperation}
use bounded_spending_account.Client.{
  Try, returned, throws, ◌>>=◌, ◌>>◌, throw_if, not_an_eip7702_delegate, not_an_eip7702_user_op,
  sender_not_deployed, undefined_value,
}
use bounded_spending_account.Client.Operation.{UserOperation, pack_user_op}
use bounded_spending_account.Client.Operation.Fill.{PartialOp, Node, is_eip7702_code, fill_user_op}

-- `updateUserOpForEip7702Hash`
unfoldable pub update_user_op_for_eip7702_hash : UserOperation → Bytes → Try UserOperation
unfolding is_eip7702_code
update_user_op_for_eip7702_hash op delegate = do
  throw_if (not (is_eip7702_code op.init_code)) not_an_eip7702_user_op
  returned (record op {
    init_code = if ltb (length op.init_code) 20 then delegate else delegate ++ drop 20 op.init_code;
  })

module _ (known_address : Bytes → ℕ → Address) (encode_user_op : UserOperation → Try Bytes) where
  -- `fillAndPack`
  unfoldable pub fill_and_pack : Option Node → Option Address → PartialOp → Try PackedUserOperation
  unfolding fill_user_op
  fill_and_pack entry delegate op = do
    filled ← fill_user_op known_address encode_user_op entry delegate op
    pack_user_op filled

-- The delegate in the code of an account: it follows 0xef0100.
unfoldable pub find_delegate : Bytes → Try Bytes
find_delegate [] = throws sender_not_deployed
find_delegate (a ∷ []) = throws not_an_eip7702_delegate
find_delegate (a ∷ b ∷ []) = throws not_an_eip7702_delegate
find_delegate (a ∷ b ∷ d ∷ delegate) =
    if a == 0xef && b == 0x01 && d == 0x00
    then returned delegate
    else throws not_an_eip7702_delegate

unfoldable pub delegate_or_found : Node → Address → Option Address → Try Bytes
unfolding find_delegate
delegate_or_found node sender none = find_delegate (node.get_code sender)
delegate_or_found node sender (some delegate) = returned (to_be 20 delegate)

-- `provider!`, of which a property is read next
unfoldable pub provider_of : Option Node → Try Node
provider_of none = throws undefined_value
provider_of (some node) = returned node

module _ (sign_typed_data : PackedUserOperation → Try Bytes) where
  -- `asyncSignUserOp`
  unfoldable pub async_sign_user_op : Option Node → Option Address → UserOperation → Try Bytes
  unfolding provider_of is_eip7702_code delegate_or_found update_user_op_for_eip7702_hash
  async_sign_user_op entry delegate op = do
    node ← provider_of entry
    to_sign ←
        if is_eip7702_code op.init_code
        then (do
          found ← delegate_or_found node op.sender delegate
          update_user_op_for_eip7702_hash op found)
        else returned op
    packed ← pack_user_op to_sign
    sign_typed_data packed

module _ (known_address : Bytes → ℕ → Address) (encode_user_op : UserOperation → Try Bytes)
    (sign_typed_data : PackedUserOperation → Try Bytes) where
  -- `fillAndSign` and `fillSignAndPack`
  unfoldable pub fill_and_sign : Option Node → Option Address → PartialOp → Try UserOperation
  unfolding fill_user_op async_sign_user_op
  fill_and_sign entry delegate op = do
    filled ← fill_user_op known_address encode_user_op entry delegate op
    signature ← async_sign_user_op sign_typed_data entry delegate filled
    returned (record filled { signature = signature })

  unfoldable pub fill_sign_and_pack :
      Option Node → Option Address → PartialOp → Try PackedUserOperation
  unfolding fill_and_sign
  fill_sign_and_pack entry delegate op = do
    signed ← fill_and_sign entry delegate op
    pack_user_op signed
