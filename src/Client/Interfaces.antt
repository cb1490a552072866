-- ===== src/Client/Interfaces.antt =====
-- `getERC165InterfaceID` of lib/account-abstraction/src/Utils.ts. The selector that ethers computes
-- for a fragment of an ABI is a parameter.
pub mod Ids
use Prim.Native.Nat.{bit_xor}
use bounded_spending_account.Prelude.{
  ℕ, ◌+◌, ◌-◌, ◌%◌, ◌^◌, Bool, List, [], ◌∷◌, ◌++◌, length, replicate, leb, ltb, ◌&&◌, ◌==◌,
  if◌then◌else◌, map,
}
use bounded_spending_account.Client.{Try, returned, throws, ◌>>=◌, empty_reduce}
use bounded_spending_account.Client.Senders.{hex_value}

-- What is read of a `JsonFragment`: whether it is a function, whether it has a name, and, for
-- `getSighash`, the rest of it.
pub record Fragment (Signature : Type 0) : Type 0 where
  pub is_function : Bool
  pub has_name : Bool
  pub signature : Signature

-- The integers of JavaScript.
pub data ℤ : Type 0 where
  pos negsuc : ℕ → ℤ

-- The difference of two numbers
unfoldable pub minus : ℕ → ℕ → ℤ
minus a b = if leb b a then pos (a - b) else negsuc (b - a - 1)

-- The conversions of the operator `^` on its operands and its result.
unfoldable pub to_uint32 : ℤ → ℕ
to_uint32 (pos n) = n % 2 ^ 32
to_uint32 (negsuc n) = (2 ^ 32 - (n + 1) % 2 ^ 32) % 2 ^ 32

unfoldable pub to_int32 : ℕ → ℤ
to_int32 bits =
    let low = bits % 2 ^ 32 in if ltb low (2 ^ 31) then pos low else negsuc (2 ^ 32 - low - 1)

-- `x ^ y`
unfoldable pub xor : ℤ → ℤ → ℤ
unfolding to_uint32 to_int32
xor x y = to_int32 (bit_xor (to_uint32 x) (to_uint32 y))

-- `filter(it => it.type === 'function' && it.name != null)`
unfoldable pub functions : {S : Type 0} → List (Fragment S) → List (Fragment S)
functions [] = []
functions (it ∷ abi) = if it.is_function && it.has_name then it ∷ functions abi else functions abi

-- `reduce((x, y) => x ^ y)`: from the first element on.
unfoldable pub reduce_from : ℤ → List ℕ → ℤ
unfolding xor
reduce_from x [] = x
reduce_from x (y ∷ ys) = reduce_from (xor x (pos y)) ys

unfoldable pub reduce : List ℕ → Try ℤ
unfolding reduce_from
reduce [] = throws empty_reduce
reduce (x ∷ xs) = returned (reduce_from (pos x) xs)

-- `interfaceId > 0 ? interfaceId : 0xFFFFFFFF + interfaceId + 1`
unfoldable pub unsigned : ℤ → ℕ
unsigned (pos n) = if ltb 0 n then n else 0xFFFFFFFF + n + 1
unsigned (negsuc n) = 0xFFFFFFFF - (n + 1) + 1

-- `toString(16).padStart(8, '0')`
unfoldable pub padded : ℕ → List ℕ
unfolding hex_value
padded n = replicate (8 - length (hex_value n)) 0 ++ hex_value n

-- `getERC165InterfaceID`: the digits after `0x`
unfoldable pub get_erc165_interface_id : {S : Type 0} → (S → ℕ) → List (Fragment S) → Try (List ℕ)
unfolding functions reduce unsigned padded
get_erc165_interface_id get_sighash abi = do
  interface_id ← reduce (map (λ it. get_sighash it.signature) (functions abi))
  returned (padded (unsigned interface_id))
