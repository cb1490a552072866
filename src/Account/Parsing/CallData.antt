-- ===== src/Account/Parsing/CallData.antt =====
-- The preflight of src/SpendingAccount.sol reads from the call data of a user operation what
-- `execute` will be given.
use bounded_spending_account.Prelude.{
  ◌≤◌, ◌≡◌, ap, ◌∙◌, sym, ◌++◌, length, take, drop, length-append, take-append, drop-append, arith,
  leb→ltb,
}
use bounded_spending_account.Solidity.Bytes.{Bytes, from_be, to_be, length-to_be, from_be-to_be}
use bounded_spending_account.Solidity.Abi.{Call}
use bounded_spending_account.Solidity.Abi.Encoding.{encode_call, IsEncodable, decode-encode_call}
use bounded_spending_account.Account.Parsing.{
  parse_spend_amounts, parse_spend_amounts_from_call_data, execute_selector,
}

-- The call data of `execute` with the given arguments.
unfoldable pub execute_data : Call → Bytes
execute_data call = to_be 4 execute_selector ++ encode_call call

-- From the standard call data of an `execute` whose arguments fit their types, with fewer than 2^64
-- bytes of data, the preflight computes exactly the spend, or the error, that `execute` computes
-- from its arguments.
pub preflight_parses_execute :
    (call : Call)
    → IsEncodable call
    → parse_spend_amounts_from_call_data (execute_data call)
      ≡ parse_spend_amounts call.target call.value call.payload
unfolding parse_spend_amounts_from_call_data execute_data
preflight_parses_execute call fits =
    let selector = to_be 4 execute_selector in
    let four : length selector ≡ 4 = length-to_be 4 execute_selector in
    let args : drop 4 (selector ++ encode_call call) ≡ encode_call call =
      ap (λ k. drop k (selector ++ encode_call call)) (sym four)
      ∙ drop-append selector (encode_call call) in
    let selected : from_be (take 4 (selector ++ encode_call call)) ≡ execute_selector =
      ap (λ k. from_be (take k (selector ++ encode_call call))) (sym four)
      ∙ ap from_be (take-append selector (encode_call call))
      ∙ from_be-to_be 4 execute_selector (omega arith) in
    let long : 4 ≤ length (selector ++ encode_call call) =
      omega (arith, length-append selector (encode_call call)) in
    rw (leb→ltb (length (selector ++ encode_call call)) 4 long)
      (rw (selected, args) (rw (decode-encode_call call fits)))
