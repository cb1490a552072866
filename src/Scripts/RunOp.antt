-- ===== src/Scripts/RunOp.antt =====
-- lib/account-abstraction/src/runop.ts: it deploys if it has to, funds the account of a signer, and
-- sends two operations through it. The node and the contracts are a parameter; of what is logged, only
-- what is about the two operations is kept, and queries for the rest of the log are left out.
pub mod Prefund
use Prim.Native.String.{String}
use bounded_spending_account.Prelude.{
  ℕ, zero, suc, ◌+◌, ◌-◌, ◌*◌, ◌/◌, ◌%◌, ◌^◌, Bool, true, false, List, [], ◌∷◌, Option, none, some,
  leb, ltb, not, ◌&&◌, ◌||◌, ◌==◌, if◌then◌else◌,
}
use bounded_spending_account.Solidity.{Address}
use bounded_spending_account.Client.{Try, returned, throws, ◌>>=◌, ◌>>◌, throw_if, unsafe_number}
use bounded_spending_account.Client.Interfaces.{ℤ, pos, negsuc, minus}
use bounded_spending_account.Scripts.Deployment.{
  Hardhat, entry_point, test_counter, simple_account_factory, run_deploy,
}

-- The decimal digits of `n` in front of others, none for 0, in at most so many rounds.
unfoldable pub decimal_onto : ℕ → ℕ → List ℕ → List ℕ
decimal_onto zero n digits = digits
decimal_onto (suc rounds) n digits =
    let shifted = decimal_onto rounds (n / 10) ((n % 10) ∷ digits) in
    if n == 0 then digits else shifted

-- `toString` of a number below 2^256: 78 rounds are enough
unfoldable pub decimal : ℕ → List ℕ
decimal n = if n == 0 then 0 ∷ [] else decimal_onto 78 n []

-- `<` of JavaScript on two texts of digits
unfoldable pub text_lt : List ℕ → List ℕ → Bool
text_lt [] [] = false
text_lt [] (y ∷ ys) = true
text_lt (x ∷ xs) [] = false
text_lt (x ∷ xs) (y ∷ ys) = ltb x y || (x == y && text_lt xs ys)

-- `parseEther('0.01')` and `parseEther('0.005')`
abbrev pub prefund_value : ℕ
prefund_value = 10000000000000000

abbrev pub min_deposit : ℕ
min_deposit = 5000000000000000

-- The operator `<` on two `BigNumber`s, which have no `valueOf`, compares what `toString` gives.
unfoldable pub needs_prefund : ℕ → Bool
needs_prefund balance = text_lt (decimal balance) (decimal prefund_value)

-- `chainId.match(/1337/)`
unfoldable pub starts_with_1337 : List ℕ → Bool
starts_with_1337 (a ∷ b ∷ c ∷ d ∷ digits) = a == 1 && b == 3 && c == 3 && d == 7
starts_with_1337 _ = false

unfoldable pub matches_1337 : List ℕ → Bool
unfolding starts_with_1337
matches_1337 [] = false
matches_1337 (digit ∷ digits) = starts_with_1337 (digit ∷ digits) || matches_1337 digits

-- The environment: `FORCE_DEPLOY` is whether it is set and not empty; `AA_INDEX` is the number that
-- `parseInt` reads.
pub record Env : Type 0 where
  pub aa_url : Option String
  pub force_deploy : Bool
  pub aa_index : Option ℕ
  pub salt : String

-- How the operations are sent: to the node at a url, or locally.
pub data SendUserOp : Type 0 where
  rpc : String → Address → SendUserOp
  local : Address → SendUserOp

-- A receipt, as far as it is read.
pub record TransactionReceipt : Type 0 where
  pub block_number : ℕ
  pub gas_used : ℕ

-- What the script uses of the nodes, for states of type `N`. `account_address` is the address of the
-- `AASigner` for a factory, which its index does not choose; `justemit` sends a call through the
-- signer with an index and waits.
-- `user_op_events` are the nonce and the gas of each `UserOperationEvent` in a block.
pub record Nodes (N : Type 0) : Type 0 where
  pub hre : Hardhat N
  pub etherscan_verify : N → Try N
  pub account_address : Address → N → Try Address
  pub get_balance : Address → N → ℕ
  pub balance_of : Address → N → ℕ
  pub send_value : Address → ℕ → N → Try N
  pub deposit_to : Address → ℕ → N → Try N
  pub justemit : SendUserOp → ℕ → Address → Address → N → Try (TransactionReceipt × N)
  pub user_op_events : ℕ → N → List (ℕ × ℕ)

-- `toNumber` of a number that is not negative, and of an integer
unfoldable pub to_number : ℕ → Try ℕ
to_number n = do throw_if (leb (2 ^ 53) n) unsafe_number; returned n

unfoldable pub to_integer : ℤ → Try ℤ
to_integer (pos n) = do throw_if (leb (2 ^ 53) n) unsafe_number; returned (pos n)
to_integer (negsuc n) = do throw_if (leb (2 ^ 53) (n + 1)) unsafe_number; returned (negsuc n)

-- An entry of what `evInfo` returns
pub record EvInfo : Type 0 where
  pub nonce : ℕ
  pub gas_paid : ℤ
  pub gas_used : ℕ
  pub diff : ℤ

-- `ev.map(…)` of `evInfo`
unfoldable pub event_infos : ℤ → ℕ → List (ℕ × ℕ) → Try (List EvInfo)
unfolding minus to_number
event_infos gas_paid receipt_gas [] = returned []
event_infos gas_paid receipt_gas ((nonce, actual_gas_used) ∷ events) = do
  gas_used ← to_number receipt_gas
  safe_nonce ← to_number nonce
  actual ← to_number actual_gas_used
  rest ← event_infos gas_paid receipt_gas events
  returned (
      record {
        nonce = safe_nonce;
        gas_paid = gas_paid;
        gas_used = gas_used;
        diff = minus gas_used actual;
      }
      ∷ rest)

-- What is logged of the two operations
pub record Log : Type 0 where
  pub gas_paid : ℤ
  pub deposit_paid : ℤ
  pub first_run : List EvInfo
  pub second_run : List EvInfo

-- `process.env.AA_INDEX ?? '0'`
unfoldable pub index_of : Option ℕ → ℕ
index_of none = 0
index_of (some index) = index

module _ {N : Type 0} (nodes : Nodes N) where
  -- The deployment, unless there is a url or it is switched off; `force_factory` is as in the
  -- deployment of the factory.
  unfoldable pub deploy_contracts : Env → Bool → N → Try N
  unfolding run_deploy matches_1337 decimal
  deploy_contracts env force_factory n = elim env.aa_url [
    | some url ↦ returned n
    | none ↦ if env.force_deploy then returned n else (do
      deployed ← run_deploy nodes.hre env.salt force_factory n
      if matches_1337 (decimal nodes.hre.chain_id)
          then returned deployed
          else nodes.etherscan_verify deployed)
  ]

  unfoldable pub choose_sender : Option String → Address → SendUserOp
  choose_sender none entry_point_address = local entry_point_address
  choose_sender (some url) entry_point_address = rpc url entry_point_address

  -- `if (await provider.getBalance(myAddress) < parseEther('0.01'))`
  unfoldable pub prefund : Address → N → Try N
  prefund account n =
      if needs_prefund (nodes.get_balance account n)
      then nodes.send_value account prefund_value n
      else returned n

  -- `if (preDeposit.lte(parseEther('0.005')))`
  unfoldable pub add_pre_deposit : Address → N → Try N
  add_pre_deposit account n =
      if leb (nodes.balance_of account n) min_deposit
      then nodes.deposit_to account prefund_value n
      else returned n

  unfoldable pub ev_info : ℤ → TransactionReceipt → N → Try (List EvInfo)
  unfolding event_infos
  ev_info gas_paid receipt n =
      event_infos gas_paid receipt.gas_used (nodes.user_op_events receipt.block_number n)

  -- The two operations.
  unfoldable pub send_two : SendUserOp → ℕ → Address → Address → N → Try (Log × N)
  unfolding ev_info minus to_integer
  send_two sender index account counter n = do
    (receipt, sent) ← nodes.justemit sender index account counter n
    let gas_paid = minus (nodes.get_balance account n) (nodes.get_balance account sent)
    let deposit_paid = minus (nodes.balance_of account n) (nodes.balance_of account sent)
    logged ← to_integer gas_paid
    first_run ← ev_info gas_paid receipt sent
    (receipt2, after) ← nodes.justemit sender index account counter sent
    second_run ← ev_info gas_paid receipt2 after
    returned (
      record {
        gas_paid = logged;
        deposit_paid = deposit_paid;
        first_run = first_run;
        second_run = second_run;
      },
      after,
    )

  -- The script
  unfoldable pub run_op : Env → Bool → N → Try (Log × N)
  unfolding deploy_contracts choose_sender index_of prefund add_pre_deposit send_two
  run_op env force_factory n = do
    deployed ← deploy_contracts env force_factory n
    entry_point_address ← nodes.hre.get entry_point deployed
    counter ← nodes.hre.get test_counter deployed
    factory ← nodes.hre.get simple_account_factory deployed
    account ← nodes.account_address factory deployed
    funded ← prefund account deployed
    ready ← add_pre_deposit account funded
    send_two (choose_sender env.aa_url entry_point_address) (index_of env.aa_index) account counter
        ready
