-- ===== src/Solidity/Abi.antt =====
-- The ABI coder of Solidity 0.8 at the types that src/SpendingAccount.sol decodes: an address, a
-- uint256, `bytes`, and an array of the structs `Call`. Every failure is a revert.
pub mod Encoding
use bounded_spending_account.Prelude.{
  ℕ, zero, suc, ◌+◌, ◌-◌, ◌*◌, ◌^◌, List, [], ◌∷◌, length, take, drop, ltb,
}
use bounded_spending_account.Solidity.{Address, bad_encoding, Result, ok, ◌>>=◌, ◌>>◌, revert_if}
use bounded_spending_account.Solidity.Bytes.{Bytes, from_be}

-- `Call` of src/SpendingAccount.sol; the field `data` is `payload` here.
pub record Call : Type 0 where
  pub target : Address
  pub value : ℕ
  pub payload : Bytes

-- The 32 bytes from `at`, as a number.
unfoldable pub word_at : Bytes → ℕ → ℕ
word_at bs at = from_be (take 32 (drop at bs))

-- A word that is an address: its 12 high bytes are zero.
unfoldable pub decode_address : Bytes → ℕ → Result Address
decode_address bs at = do
  let word = word_at bs at
  revert_if (ltb (2 ^ 160 - 1) word) bad_encoding
  ok word

-- An offset or a length: a word of at most 64 bits.
unfoldable pub decode_size : Bytes → ℕ → Result ℕ
decode_size bs at = do
  let word = word_at bs at
  revert_if (ltb (2 ^ 64 - 1) word) bad_encoding
  ok word

-- A value of type `bytes` at `at`: a length, and as many bytes, all before the end.
unfoldable pub decode_bytes : Bytes → ℕ → Result Bytes
decode_bytes bs at = do
  revert_if (ltb (length bs) (at + 32)) bad_encoding
  size ← decode_size bs at
  revert_if (ltb (length bs) (at + 32 + size)) bad_encoding
  ok (take size (drop (at + 32) bs))

-- The fields (address, uint256, bytes) that begin at `at`.
unfoldable pub decode_call : Bytes → ℕ → Result Call
decode_call bs at = do
  revert_if (ltb (length bs) (at + 96)) bad_encoding
  target ← decode_address bs at
  offset ← decode_size bs (at + 64)
  payload ← decode_bytes bs (at + offset)
  ok (record { target = target; value = word_at bs (at + 32); payload = payload })

-- `count` elements of an array, the offsets of which stand from `at` and count from `base`.
unfoldable pub decode_elements : Bytes → ℕ → ℕ → ℕ → Result (List Call)
decode_elements bs base zero at = ok []
decode_elements bs base (suc count) at = do
  offset ← decode_size bs at
  call ← decode_call bs (base + offset)
  rest ← decode_elements bs base count (at + 32)
  ok (call ∷ rest)

-- `abi.decode(bs, (Call[]))`
unfoldable pub decode_calls : Bytes → Result (List Call)
decode_calls bs = do
  revert_if (ltb (length bs) 32) bad_encoding
  at ← decode_size bs 0
  revert_if (ltb (length bs) (at + 32)) bad_encoding
  count ← decode_size bs at
  revert_if (ltb (length bs) (at + 32 + 32 * count)) bad_encoding
  decode_elements bs (at + 32) count (at + 32)
