-- ===== src/Client/Signer.antt =====
-- `AASigner` of lib/account-abstraction/src/AASigner.ts, and the listener of its responses. The
-- network is a parameter, and so is the function `fillAndSign` of test/UserOp.ts, which
-- Client/Operation/Fill models.
pub mod Accounts
pub mod Responses
pub mod Drafts
use bounded_spending_account.Prelude.{
  ℕ, ◌^◌, Bool, true, false, List, [], ◌∷◌, Option, none, some, leb, not, ◌==◌, if◌then◌else◌,
}
use bounded_spending_account.Solidity.{Address}
use bounded_spending_account.Solidity.Bytes.{Bytes, from_be}
use bounded_spending_account.Client.{
  Try, returned, throws, ◌>>=◌, ◌>>◌, throw_if, string_length, already_connected, not_supported,
  unsafe_number, non_existing_contract,
}
use bounded_spending_account.Client.Operation.{UserOperation}
use bounded_spending_account.Client.Operation.Fill.{PartialOp}

-- The fields that change; `is_phantom` is `_isPhantom`.
pub record Signer : Type 0 where
  pub account : Option Address
  pub is_phantom : Bool
  pub chain_id : Option ℕ

-- `new AASigner(…)`
unfoldable pub new_signer : Signer
new_signer = record { account = none; is_phantom = true; chain_id = none }

-- What the signer reads: the code at an address, the address and the init code that the account
-- factory has for the owner and a salt, the id of the chain, and the data of a call
-- `execute(to, value, data)`.
pub record Network : Type 0 where
  pub get_code : Address → Bytes
  pub account_address : ℕ → Address
  pub account_init_code : ℕ → Bytes
  pub network_chain_id : ℕ
  pub execute_data : Address → ℕ → Bytes → Bytes

-- `TransactionRequest`; the prices are JavaScript numbers, of which 0 counts as false.
pub record Transaction : Type 0 where
  pub to : Address
  pub value : Option ℕ
  pub payload : Bytes
  pub nonce : Option ℕ
  pub gas_limit : Option ℕ
  pub gas_price : Option ℕ
  pub max_priority_fee_per_gas : Option ℕ
  pub max_fee_per_gas : Option ℕ

-- The fields that `_createUserOperation` gives to `fillAndSign`.
pub record Draft : Type 0 where
  pub sender : Address
  pub init_code : Option Bytes
  pub nonce : Option ℕ
  pub call_data : Bytes
  pub call_gas_limit : Option ℕ
  pub max_priority_fee_per_gas : Option ℕ
  pub max_fee_per_gas : Option ℕ

-- The draft as the argument of `fillUserOp`
unfoldable pub partial_of : Draft → PartialOp
partial_of draft = record {
  sender = some draft.sender;
  nonce = draft.nonce;
  init_code = draft.init_code;
  call_data = some draft.call_data;
  call_gas_limit = draft.call_gas_limit;
  verification_gas_limit = none;
  pre_verification_gas = none;
  max_fee_per_gas = draft.max_fee_per_gas;
  max_priority_fee_per_gas = draft.max_priority_fee_per_gas;
  paymaster = none;
  paymaster_verification_gas_limit = none;
  paymaster_post_op_gas_limit = none;
  paymaster_data = none;
  signature = none;
}

-- `connectAccountAddress`
unfoldable pub connect_account_address : Network → Address → Signer → Try Signer
connect_account_address net address s = elim s.account [
  | some _ ↦ throws already_connected
  | none ↦ do
    throw_if (leb (string_length (net.get_code address)) 2) non_existing_contract
    returned (record s { account = some address; is_phantom = false })
]

-- The account of a signer that has one, or else the factory's: `getAccountAddress` and
-- `getAccountInitCode` of test/testutils.ts are given no salt, and take 0.
unfoldable pub account_or_predicted : Network → Signer → Address
account_or_predicted net s = elim s.account [
  | none ↦ net.account_address 0
  | some account ↦ account
]

-- `syncAccount`
unfoldable pub sync_account : Network → Signer → Signer
unfolding account_or_predicted
sync_account net s =
    let account = account_or_predicted net s in
    record {
      account = some account;
      is_phantom = if s.is_phantom then string_length (net.get_code account) == 2 else false;
      chain_id = some net.network_chain_id;
    }

-- `getAddress` and `isPhantom`: what they return, and the signer afterwards
unfoldable pub get_address : Network → Signer → Address × Signer
unfolding account_or_predicted sync_account
get_address net s = (account_or_predicted net s, sync_account net s)

unfoldable pub is_phantom : Network → Signer → Bool × Signer
unfolding sync_account
is_phantom net s = ((sync_account net s).is_phantom, sync_account net s)

-- `getAccount`, which gives the contract at the address
unfoldable pub get_account : Network → Signer → Address × Signer
unfolding get_address
get_account net s = get_address net s

-- `connect`, `signMessage` and `signTransaction`
unfoldable pub connect : Signer → Try Signer
connect s = throws not_supported

unfoldable pub sign_message : Bytes → Signer → Try Bytes
sign_message message s = throws not_supported

unfoldable pub sign_transaction : Transaction → Signer → Try Bytes
sign_transaction tx s = throws not_supported

-- `gasPrice`, where it is given and not 0, overrides a fee.
unfoldable pub overridden : Option ℕ → Option ℕ → Option ℕ
overridden none fee = fee
overridden (some price) fee = if price == 0 then fee else some price

-- `tx.value ?? 0`
unfoldable pub value_or_zero : Option ℕ → ℕ
value_or_zero none = 0
value_or_zero (some value) = value

-- The draft of `_createUserOperation`, for the signer's `index`.
unfoldable pub draft_user_operation : Network → ℕ → Transaction → Signer → Draft × Signer
unfolding sync_account account_or_predicted overridden value_or_zero
draft_user_operation net index tx s =
    let synced = sync_account net s in
    (
      record {
        sender = account_or_predicted net s;
        init_code = if synced.is_phantom then some (net.account_init_code 0) else none;
        nonce = if synced.is_phantom then some index else tx.nonce;
        call_data = net.execute_data tx.to (value_or_zero tx.value) tx.payload;
        call_gas_limit = tx.gas_limit;
        max_priority_fee_per_gas = overridden tx.gas_price tx.max_priority_fee_per_gas;
        max_fee_per_gas = overridden tx.gas_price tx.max_fee_per_gas;
      },
      synced,
    )

-- `_createUserOperation`
unfoldable pub create_user_operation :
    (Draft → Try UserOperation) → Network → ℕ → Transaction → Signer → Try (UserOperation × Signer)
unfolding draft_user_operation
create_user_operation fill_and_sign net index tx s = do
  let (draft, synced) = draft_user_operation net index tx s
  op ← fill_and_sign draft
  returned (op, synced)

-- The fields of a response that are not its promise; `quantity` is the number that `data` shows.
pub record ResponseFields : Type 0 where
  pub hash : ℕ
  pub confirmations : ℕ
  pub from : Address
  pub nonce : ℕ
  pub gas_limit : ℕ
  pub value : ℕ
  pub quantity : ℕ
  pub chain_id : Option ℕ

-- `resp` of `userEventResponse`; `toNumber` throws from 2^53 on
unfoldable pub response_fields : (UserOperation → ℕ) → UserOperation → Signer → Try ResponseFields
response_fields user_op_hash op s = do
  throw_if (leb (2 ^ 53) op.nonce) unsafe_number
  returned (record {
    hash = user_op_hash op;
    confirmations = 0;
    from = op.sender;
    nonce = op.nonce;
    gas_limit = op.call_gas_limit;
    value = 0;
    quantity = from_be op.call_data;
    chain_id = s.chain_id;
  })

-- What `sendTransaction` does to the outside, in order: it listens for the event of an operation
-- hash, then sends.
pub data Action : Type 0 where
  listens : ℕ → Action
  sends : UserOperation → Action

-- `sendTransaction`, with the hash of an operation as a parameter: the response, what is done, and
-- the signer afterwards
unfoldable pub send_transaction :
    (Draft → Try UserOperation)
    → (UserOperation → ℕ)
    → Network
    → ℕ
    → Transaction
    → Signer
    → Try (ResponseFields × List Action × Signer)
unfolding create_user_operation response_fields
send_transaction fill_and_sign user_op_hash net index tx s = do
  (op, synced) ← create_user_operation fill_and_sign net index tx s
  response ← response_fields user_op_hash op synced
  returned (response, listens (user_op_hash op) ∷ sends op ∷ [], synced)

-- A `UserOperationEvent`: its block, and its arguments where they are known, the hash of the
-- operation and whether it has succeeded; and the reason of a revert that the query for it finds.
pub record Event : Type 0 where
  pub block_number : ℕ
  pub args : Option (ℕ × Bool)
  pub revert_reason : Option Bytes

-- How the promise of a response is settled: with a receipt of the given status, or an error.
pub data Settled : Type 0 where
  receipt : Bool → Settled
  rejected : Bytes → Settled

-- The state of `userEventResponse`: the promise, the flag, and whether the listener is registered.
pub record Response : Type 0 where
  pub settled : Option Settled
  pub resolved : Bool
  pub listening : Bool

unfoldable pub user_event_response : Response
user_event_response = record { settled = none; resolved = false; listening = true }

-- `resolve` and `reject`: only the first of them counts.
unfoldable pub settle : Settled → Option Settled → Option Settled
settle outcome none = some outcome
settle outcome (some first) = some first

-- `entryPoint.off(…); resolve(rcpt); resolved = true`
unfoldable pub resolve : Bool → Response → Response
unfolding settle
resolve success r = record {
  settled = settle (receipt success) r.settled;
  resolved = true;
  listening = false;
}

-- The rest of the listener, for an event of the operation.
unfoldable pub settle_event : Bool → Option Bytes → Response → Response
unfolding resolve settle
settle_event true reason r = resolve true r
settle_event false none r = resolve false r
settle_event false (some reason) r = record r { settled = settle (rejected reason) r.settled }

-- `listener`, for a response made in the block `current_block` to the operation with `hash`
unfoldable pub listener : ℕ → ℕ → Event → Response → Response
unfolding settle_event
listener current_block hash event r =
    if r.resolved then r else if leb event.block_number current_block then r else elim event.args [
      | none ↦ r
      | some (event_hash, success) ↦
          if event_hash == hash then settle_event success event.revert_reason r else r
    ]

-- The listener on a sequence of events.
unfoldable pub listen : ℕ → ℕ → List Event → Response → Response
unfolding listener
listen current_block hash [] r = r
listen current_block hash (event ∷ events) r =
    listen current_block hash events (listener current_block hash event r)
