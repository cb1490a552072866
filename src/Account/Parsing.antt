-- ===== src/Account/Parsing.antt =====
-- What a call spends, in src/SpendingAccount.sol: `_slice`, `_parseSpendAmounts`, the totals of
-- `executeBatch` and `_parseSpendAmountsFromCallData`.
pub mod Accepted
pub mod Batch
pub mod CallData
use bounded_spending_account.Prelude.{
  ℕ, zero, suc, ◌+◌, ◌-◌, List, [], ◌∷◌, ◌++◌, length, take, drop, replicate, get_or, ltb, ◌==◌,
  if◌then◌else◌,
}
use bounded_spending_account.Solidity.{
  Address, Revert, invalid_target_or_selector, invalid_selector, bad_encoding, Result, ok, revert,
  ◌>>=◌, ◌>>◌, revert_if, checked_add,
}
use bounded_spending_account.Solidity.Bytes.{Bytes, from_be}
use bounded_spending_account.Solidity.Abi.{Call, word_at, decode_address, decode_call, decode_calls}
use bounded_spending_account.Account.{usdc_address}

-- The first four bytes of the hash of `transfer(address,uint256)`, of
-- `execute(address,uint256,bytes)` and of `executeBatch((address,uint256,bytes)[])`.
abbrev pub transfer_selector : ℕ
transfer_selector = 0xa9059cbb

abbrev pub execute_selector : ℕ
execute_selector = 0xb61d27f6

abbrev pub execute_batch_selector : ℕ
execute_batch_selector = 0x34fcd5be

-- What a call, or a batch of calls, spends.
pub record Spend : Type 0 where
  pub eth : ℕ
  pub usdc : ℕ

-- The loop of `_slice`: the bytes `start`, `start + 1`, … of `bs`, for `count` rounds.
unfoldable pub slice_loop : Bytes → ℕ → ℕ → Bytes
slice_loop bs start zero = []
slice_loop bs start (suc count) = get_or bs start 0 ∷ slice_loop bs (suc start) count

-- `_slice`, for `start` of at most the length
unfoldable pub slice : Bytes → ℕ → Bytes
unfolding slice_loop
slice bs start = slice_loop bs start (length bs - start)

-- `shr(224, mload(add(data, 0x24)))`. The bytes begin at `data + 0x20`, so these are the four
-- from index 4. Memory behind the array reads as zero here; below 68 bytes the caller reverts with
-- one error whatever it holds.
unfoldable pub loaded_selector : Bytes → ℕ
loaded_selector bs = from_be (take 4 (drop 4 (bs ++ replicate 8 0)))

-- `abi.decode(_slice(data, 4), (address, uint256))`, of which the amount is used
unfoldable pub decode_transfer_amount : Bytes → Result ℕ
decode_transfer_amount bs = do
  revert_if (ltb (length bs) 64) bad_encoding
  recipient ← decode_address bs 0
  ok (word_at bs 32)

-- The branch of `_parseSpendAmounts` for the token.
unfoldable pub parse_usdc_call : ℕ → Bytes → Result Spend
parse_usdc_call value payload = do
  revert_if (ltb 0 value) invalid_target_or_selector
  revert_if (ltb (length payload) 4) invalid_selector
  if loaded_selector payload == transfer_selector
      then (do
        revert_if (ltb (length payload) 68) invalid_selector
        amount ← decode_transfer_amount (slice payload 4)
        ok (record { eth = 0; usdc = amount }))
      else revert invalid_selector

-- `_parseSpendAmounts`
unfoldable pub parse_spend_amounts : Address → ℕ → Bytes → Result Spend
parse_spend_amounts target value payload =
    if target == usdc_address
    then parse_usdc_call value payload
    else if value == 0
    then revert invalid_target_or_selector
    else ok (record { eth = value; usdc = 0 })

-- The loop that adds up a batch, in `executeBatch` and in `_parseSpendAmountsFromCallData`.
unfoldable pub add_up : List Call → Spend → Result Spend
add_up [] total = ok total
add_up (call ∷ calls) total = do
  spend ← parse_spend_amounts call.target call.value call.payload
  eth ← checked_add total.eth spend.eth
  usdc ← checked_add total.usdc spend.usdc
  add_up calls (record { eth = eth; usdc = usdc })

abbrev pub nothing : Spend
nothing = record { eth = 0; usdc = 0 }

-- `_parseSpendAmountsFromCallData`
unfoldable pub parse_spend_amounts_from_call_data : Bytes → Result Spend
parse_spend_amounts_from_call_data call_data =
    let selector = from_be (take 4 call_data) in
    let args = drop 4 call_data in
    if ltb (length call_data) 4
    then ok nothing
    else if selector == execute_selector
    then (do call ← decode_call args 0; parse_spend_amounts call.target call.value call.payload)
    else if selector == execute_batch_selector
    then (do calls ← decode_calls args; add_up calls nothing)
    else revert invalid_target_or_selector
