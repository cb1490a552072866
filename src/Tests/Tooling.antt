-- ===== src/Tests/Tooling.antt =====
-- Tests of the signer, the senders and the deployer in lib/account-abstraction/src.
use bounded_spending_account.Prelude.{
  ℕ, ◌+◌, ◌≡◌, ◌≢◌, ◌^◌, refl, arith, Bool, true, false, length, List, [], ◌∷◌, none, some,
  replicate, ◌==◌, if◌then◌else◌,
}
use bounded_spending_account.Solidity.Bytes.{to_be, to_be_onto}
use bounded_spending_account.Client.{returned}
use bounded_spending_account.Client.Senders.{Value, hex, number, Fields, digits_onto, hex_value}
use bounded_spending_account.Client.Interfaces.{
  pos, to_uint32, to_int32, xor, functions, reduce_from, reduce, unsigned, padded,
  get_erc165_interface_id,
}
use bounded_spending_account.Client.Interfaces.Ids.{xor_all, interface_number}
use bounded_spending_account.Client.Deployer.{
  Provider, undefined, contract_address, data_gas, creation_gas, manual_gas, get_deployed_address,
  deploy, is_factory_deployed, deploy_factory, chosen_gas, deploy_code,
}
use bounded_spending_account.Client.Signer.{
  Signer, new_signer, Network, Transaction, Event, connect_account_address, draft_user_operation,
}
use bounded_spending_account.Client.Signer.Accounts.{index_does_not_choose_the_account}

-- A chain that says whether the code has been deployed yet; the deployer always is.
abbrev provider : Provider Bool
provider = record {
  get_code =
      λ a deployed. if a == contract_address then 1 ∷ [] else if deployed then 1 ∷ [] else [];
  send_value = λ to value c. returned c;
  raw_factory_tx = λ c. returned c;
  send_call = λ to payload gas c. returned true;
  estimate_gas = λ to payload c. 9;
  keccak256 = λ bs. length bs;
}

prices : manual_gas (0 ∷ 5 ∷ []) ≡ returned 54477
unfolding manual_gas creation_gas data_gas
prices = refl

deploys :
    deploy provider false (0 ∷ 5 ∷ []) 3 undefined false
    ≡ returned (get_deployed_address provider (0 ∷ 5 ∷ []) 3, true, true)
unfolding deploy deploy_factory is_factory_deployed deploy_code chosen_gas manual_gas creation_gas
    data_gas get_deployed_address to_be to_be_onto
deploys = refl

code_there : provider.get_code (get_deployed_address provider (0 ∷ 5 ∷ []) 3) true ≢ []
unfolding get_deployed_address to_be to_be_onto
code_there e = absurd (cc e)

-- A network with code at the address 70 alone, where the factory predicts 71.
abbrev network : Network
network = record {
  get_code = λ a. if a == 70 then 1 ∷ [] else [];
  account_address = λ salt. 71 + salt;
  account_init_code = λ salt. 8 ∷ salt ∷ [];
  network_chain_id = 8453;
  execute_data = λ to value payload. payload;
}

abbrev transaction : Transaction
transaction = record {
  to = 77;
  value = none;
  payload = [];
  nonce = some 5;
  gas_limit = none;
  gas_price = some 9;
  max_priority_fee_per_gas = none;
  max_fee_per_gas = none;
}

abbrev connected : Signer
connected = record { account = some 70; is_phantom = false; chain_id = none }

connects : connect_account_address network 70 new_signer ≡ returned connected
unfolding connect_account_address new_signer
connects = refl

-- An earlier block, another operation, a failure with a reason, and a success.
abbrev events : List Event
events =
    record { block_number = 3; args = some (42, true); revert_reason = none }
    ∷ record { block_number = 8; args = some (41, true); revert_reason = none }
    ∷ record { block_number = 8; args = some (42, false); revert_reason = some (6 ∷ []) }
    ∷ record { block_number = 9; args = some (42, true); revert_reason = none }
    ∷ []

-- The fields 1, 2 and 3 of an operation: a hex string, a large number, and zero.
abbrev fields : Fields ℕ Value
fields = (1, hex (0 ∷ 10 ∷ [])) ∷ (2, number 500) ∷ (3, number 0) ∷ []

-- The selectors of `transfer` and of `execute`.
abbrev selectors : List ℕ
selectors = 0xa9059cbb ∷ 0xb61d27f6 ∷ []

reduces : reduce selectors ≡ returned (pos 0x1f18bb4d)
unfolding reduce reduce_from xor to_uint32 to_int32
reduces = refl

interface_number_example : unsigned (pos 0x1f18bb4d) ≡ (
    if xor_all 0xa9059cbb (0xb61d27f6 ∷ []) == 0
    then 2 ^ 32
    else xor_all 0xa9059cbb (0xb61d27f6 ∷ []))
interface_number_example =
    interface_number 0xa9059cbb (0xb61d27f6 ∷ []) (omega arith, (omega arith, tt)) reduces

-- Two equal selectors cancel out: nine digits.
nine_digits :
    get_erc165_interface_id
      (λ s. s)
      (record { is_function = true; has_name = true; signature = 5 }
        ∷ record { is_function = false; has_name = true; signature = 6 }
        ∷ record { is_function = true; has_name = true; signature = 5 }
        ∷ [])
    ≡ returned (1 ∷ replicate 8 0)
unfolding get_erc165_interface_id functions reduce reduce_from xor to_uint32 to_int32 unsigned
    padded hex_value digits_onto
nine_digits = refl

index_does_not_choose_the_account_example :
    ((draft_user_operation network 2 transaction new_signer).0.sender
      ≡ (draft_user_operation network 3 transaction new_signer).0.sender)
    × ((draft_user_operation network 2 transaction new_signer).0.init_code
        ≡ (draft_user_operation network 3 transaction new_signer).0.init_code)
    × ((draft_user_operation network 2 transaction new_signer).0.sender ≡ 71)
    × ((draft_user_operation network 2 transaction new_signer).0.init_code ≢ none
        → (draft_user_operation network 2 transaction new_signer).0.nonce ≡ some 2)
index_does_not_choose_the_account_example =
    index_does_not_choose_the_account network 2 3 transaction new_signer
