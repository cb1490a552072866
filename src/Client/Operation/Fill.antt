-- ===== src/Client/Operation/Fill.antt =====
-- How lib/account-abstraction/test/UserOp.ts fills in an operation: `fillUserOp` and its helpers.
-- The entry point with its provider and the encoding by ethers are parameters.
pub mod Sign
pub mod Extends
pub mod Steps
pub mod Given
pub mod Signed
use bounded_spending_account.Prelude.{
  ℕ, ◌+◌, ◌*◌, Bool, false, List, [], ◌∷◌, ◌++◌, Option, none, some, length, take, drop, replicate,
  ltb, not, ◌&&◌, ◌==◌, if◌then◌else◌,
}
use bounded_spending_account.Solidity.{Address}
use bounded_spending_account.Solidity.Bytes.{Bytes, from_be, to_be}
use bounded_spending_account.UserOp.{PackedUserOperation}
use bounded_spending_account.Client.{
  Try, returned, throws, ◌>>=◌, ◌>>◌, throw_if, string_length, must_have_provider,
  must_have_eip7702_delegate, not_an_eip7702_delegate, not_an_eip7702_user_op, sender_not_deployed,
  invalid_value, undefined_value, empty_reduce,
}
use bounded_spending_account.Client.Operation.{UserOperation, pack_user_op}
use bounded_spending_account.Client.Deployer.{contract_address, data_gas}

-- `Partial<UserOperation>`
pub record PartialOp : Type 0 where
  pub sender : Option Address
  pub nonce : Option ℕ
  pub init_code : Option Bytes
  pub call_data : Option Bytes
  pub call_gas_limit : Option ℕ
  pub verification_gas_limit : Option ℕ
  pub pre_verification_gas : Option ℕ
  pub max_fee_per_gas : Option ℕ
  pub max_priority_fee_per_gas : Option ℕ
  pub paymaster : Option Bytes
  pub paymaster_verification_gas_limit : Option ℕ
  pub paymaster_post_op_gas_limit : Option ℕ
  pub paymaster_data : Option Bytes
  pub signature : Option Bytes

-- What is asked of the entry point and its provider; an estimate without a target is that of a
-- creation. `known_address` is
-- `Create2Factory.getDeployedAddress` for a code and a salt.
pub record Node : Type 0 where
  pub entry_point : Address
  pub get_code : Address → Bytes
  pub get_transaction_count : Address → ℕ
  pub get_nonce : Address → Try ℕ
  pub get_sender_address : Bytes → Try Address
  pub sender_creator : Address
  pub estimate_gas : Address → Option Address → Bytes → Try ℕ
  pub base_fee_per_gas : ℕ

-- A field that is given, or else a default.
abbrev pub or_else {ℓ} : {A : Type ℓ} → A → Option A → A
or_else default none = default
or_else default (some given) = given

-- A field that is given, or else what is found out.
abbrev pub or_find {ℓ} : {A : Type ℓ} → Try A → Option A → Try A
or_find find none = find
or_find find (some given) = returned given

-- `isEip7702UserOp`: the init code starts with `INITCODE_EIP7702_MARKER`
unfoldable pub is_eip7702_code : Bytes → Bool
is_eip7702_code [] = false
is_eip7702_code (a ∷ []) = false
is_eip7702_code (a ∷ b ∷ bs) = a == 0x77 && b == 0x02

-- `fillUserOpDefaults` with `DefaultsForUserOp`
unfoldable pub fill_user_op_defaults : PartialOp → UserOperation
fill_user_op_defaults op = record {
  sender = or_else 0 op.sender;
  nonce = or_else 0 op.nonce;
  init_code = or_else [] op.init_code;
  call_data = or_else [] op.call_data;
  call_gas_limit = or_else 0 op.call_gas_limit;
  verification_gas_limit = or_else 150000 op.verification_gas_limit;
  pre_verification_gas = or_else 21000 op.pre_verification_gas;
  max_fee_per_gas = or_else 0 op.max_fee_per_gas;
  max_priority_fee_per_gas = or_else 1000000000 op.max_priority_fee_per_gas;
  paymaster = some (or_else (replicate 20 0) op.paymaster);
  paymaster_verification_gas_limit = or_else 300000 op.paymaster_verification_gas_limit;
  paymaster_post_op_gas_limit = or_else 0 op.paymaster_post_op_gas_limit;
  paymaster_data = or_else [] op.paymaster_data;
  signature = or_else [] op.signature;
}

-- `if (provider == null) throw …`
unfoldable pub need : Option Node → Try Node
need none = throws must_have_provider
need (some node) = returned node

-- A field without which a call throws, such as `op1.sender!`
unfoldable pub present {ℓ} : {A : Type ℓ} → Option A → Try A
present none = throws invalid_value
present (some a) = returned a

-- `callDataCost`
unfoldable pub call_data_cost : Bytes → Try ℕ
call_data_cost payload = do throw_if (length payload == 0) empty_reduce; returned (data_gas payload)

-- With the init code of an EIP-7702 operation: the test of the delegate, and the nonce.
unfoldable pub check_delegate : Option Address → Bytes → Try (Unit {0})
check_delegate delegate code =
    if string_length code == 2
    then elim delegate [ none ↦ throws must_have_eip7702_delegate | some given ↦ returned tt ]
    else throw_if (not (string_length code == 23 * 2 + 2)) not_an_eip7702_delegate

unfoldable pub fill_eip7702 : Option Node → Option Address → PartialOp → Try PartialOp
unfolding need present check_delegate
fill_eip7702 entry delegate op = do
  node ← need entry
  sender ← present op.sender
  check_delegate delegate (node.get_code sender)
  returned (record op { nonce = some (or_else (node.get_transaction_count sender) op.nonce) })

-- With any other init code: the nonce, the sender and the gas limit of the verification.
unfoldable pub find_sender : (Bytes → ℕ → Address) → Option Node → Bytes → Try Address
unfolding need
find_sender known_address entry init_code =
    if from_be (take 20 init_code) == contract_address
    then returned (known_address (drop 52 init_code) (from_be (take 32 (drop 20 init_code))))
    else (do node ← need entry; node.get_sender_address init_code)

unfoldable pub estimate_creation : Option Node → Bytes → Try ℕ
unfolding need
estimate_creation entry init_code = do
  node ← need entry
  estimate ←
      node.estimate_gas node.sender_creator (some (from_be (take 20 init_code))) (drop 20 init_code)
  returned (150000 + estimate)

unfoldable pub fill_creation :
    (Bytes → ℕ → Address) → Option Node → Bytes → PartialOp → Try PartialOp
unfolding find_sender estimate_creation
fill_creation known_address entry init_code op = do
  sender ← or_find (find_sender known_address entry init_code) op.sender
  verification_gas_limit ← or_find (estimate_creation entry init_code) op.verification_gas_limit
  returned (record op {
    nonce = some (or_else 0 op.nonce);
    sender = some sender;
    verification_gas_limit = some verification_gas_limit;
  })

unfoldable pub fill_init :
    (Bytes → ℕ → Address) → Option Node → Option Address → PartialOp → Try PartialOp
unfolding fill_eip7702 fill_creation is_eip7702_code
fill_init known_address entry delegate op = elim op.init_code [
  | none ↦ returned op
  | some init_code ↦
      if is_eip7702_code init_code
      then fill_eip7702 entry delegate op
      else fill_creation known_address entry init_code op
]

-- The nonce, from the account of the operation as it was given.
unfoldable pub find_nonce : Option Node → Option Address → Try ℕ
unfolding need present
find_nonce entry given_sender = do
  node ← need entry
  sender ← present given_sender
  node.get_nonce sender

unfoldable pub estimate_call : Option Node → Option Address → Bytes → Try ℕ
unfolding need
estimate_call entry sender call_data = do
  node ← need entry
  node.estimate_gas node.entry_point sender call_data

-- The gas limit of the call is estimated only where there are call data.
unfoldable pub find_call_gas : Option Node → PartialOp → Try (Option ℕ)
unfolding estimate_call
find_call_gas entry op = elim op.call_gas_limit [
  | some limit ↦ returned (some limit)
  | none ↦ elim op.call_data [
    | none ↦ returned none
    | some call_data ↦ do
      estimate ← estimate_call entry op.sender call_data
      returned (some estimate)
  ]
]

unfoldable pub find_max_fee : Option Node → Option ℕ → Try ℕ
unfolding need
find_max_fee entry priority = do
  node ← need entry
  returned (node.base_fee_per_gas + or_else 1000000000 priority)

-- The limits of the paymaster, where one is given.
unfoldable pub fill_paymaster : PartialOp → PartialOp
fill_paymaster op = elim op.paymaster [
  | none ↦ op
  | some paymaster ↦ record op {
    paymaster_verification_gas_limit = some (or_else 300000 op.paymaster_verification_gas_limit);
    paymaster_post_op_gas_limit = some (or_else 0 op.paymaster_post_op_gas_limit);
  }
]

-- The rest of `fillUserOp` after the part on the init code, for the sender that was given.
unfoldable pub fill_fields : Option Node → Option Address → PartialOp → Try PartialOp
unfolding find_nonce find_call_gas find_max_fee fill_paymaster
fill_fields entry given_sender op = do
  nonce ← or_find (find_nonce entry given_sender) op.nonce
  call_gas_limit ← find_call_gas entry op
  max_fee_per_gas ← or_find (find_max_fee entry op.max_priority_fee_per_gas) op.max_fee_per_gas
  returned (record (fill_paymaster op) {
    nonce = some nonce;
    call_gas_limit = call_gas_limit;
    max_fee_per_gas = some max_fee_per_gas;
    max_priority_fee_per_gas = some (or_else 1000000000 op.max_priority_fee_per_gas);
  })

-- The last part: 0 for the gas before the verification is replaced by the cost of the call data.
unfoldable pub fill_pre_verification :
    (UserOperation → Try Bytes) → UserOperation → Try UserOperation
unfolding call_data_cost
fill_pre_verification encode_user_op op =
    if op.pre_verification_gas == 0
    then (do
      encoded ← encode_user_op op
      cost ← call_data_cost encoded
      returned (record op { pre_verification_gas = cost }))
    else returned op

module _ (known_address : Bytes → ℕ → Address) (encode_user_op : UserOperation → Try Bytes) where
  -- `fillUserOp`
  unfoldable pub fill_user_op : Option Node → Option Address → PartialOp → Try UserOperation
  unfolding fill_init fill_fields fill_user_op_defaults fill_pre_verification
  fill_user_op entry delegate op = do
    created ← fill_init known_address entry delegate op
    filled ← fill_fields entry op.sender created
    fill_pre_verification encode_user_op (fill_user_op_defaults filled)
