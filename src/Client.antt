-- ===== src/Client.antt =====
-- The TypeScript tooling in lib/account-abstraction that makes, packs and sends user operations:
-- functions of JavaScript that return or throw. A hex string is the list of its bytes here, and a
-- `BigNumberish` a number.
pub mod Operation
pub mod Queue
pub mod Deployer
pub mod Signer
pub mod Senders
pub mod Interfaces
use bounded_spending_account.Prelude.{
  ℕ, ◌+◌, ◌*◌, Bool, true, false, length, ◌≡◌, refl, ◌⊎◌, inl, inr,
}
use bounded_spending_account.Solidity.Bytes.{Bytes}

pub data Error : Type 0 where
  -- of ethers: `hexZeroPad` of a value that is too long
  value_out_of_range : Error
  -- of src/Create2Factory.ts; `reduce` of an empty array
  failed_to_deploy failed_to_deploy_deployer empty_reduce : Error
  -- of src/AASigner.ts
  already_connected non_existing_contract not_supported : Error
  -- of ethers: `toNumber` of what is no safe integer
  unsafe_number : Error
  -- of ethers: `hexValue` of what is no number and no hex string
  invalid_value : Error
  -- of JavaScript: a property of undefined is read
  undefined_value : Error
  -- of test/UserOp.ts
  must_have_provider must_have_eip7702_delegate not_an_eip7702_delegate : Error
  not_an_eip7702_user_op sender_not_deployed : Error
  -- of gascalc/GasChecker.ts: no such account; an operation reverted; some operations failed
  no_account : Error
  user_op_reverted : Bytes → Error
  some_user_ops_failed : Error

pub data Try {κ} (V : Type κ) : Type κ where
  throws : Error → Try V
  returned : V → Try V

infixl 5 ◌>>=◌ ◌>>◌
abbrev pub ◌>>=◌ {κ μ} : {V : Type κ} {W : Type μ} → Try V → (V → Try W) → Try W
throws error >>= next = throws error
returned value >>= next = next value

abbrev pub ◌>>◌ {μ} : {W : Type μ} → Try (Unit {0}) → Try W → Try W
first >> next = first >>= λ done. next

-- `if (test) throw e`
abbrev pub throw_if : Bool → Error → Try (Unit {0})
throw_if false error = returned tt
throw_if true error = throws error

-- The `length` of a hex string: `0x`, and two characters for each byte.
abbrev pub string_length : Bytes → ℕ
string_length bs = 2 + 2 * length bs

pub >>=-eq-returned {κ ℓ} :
    {B : Type κ} {A : Type ℓ} (first : Try B) (rest : B → Try A) {value : A}
    → (first >>= rest) ≡ returned value
    → (middle : B) × (first ≡ returned middle) × (rest middle ≡ returned value)
>>=-eq-returned (throws error) rest returns = cc
>>=-eq-returned (returned middle) rest returns = (middle, refl, returns)

pub throw_if-eq-returned {ℓ} :
    {A : Type ℓ} (test : Bool) (error : Error) (rest : Try A) {value : A}
    → (throw_if test error >> rest) ≡ returned value
    → (test ≡ false) × (rest ≡ returned value)
throw_if-eq-returned false error rest returns = (refl, returns)
throw_if-eq-returned true error rest returns = cc

pub returned-injective {ℓ} : {A : Type ℓ} {a b : A} → returned a ≡ returned b → a ≡ b
returned-injective h = cc

pub Try-cases {ℓ} :
    {A : Type ℓ} (t : Try A) → ((e : Error) × (t ≡ throws e)) ⊎ ((a : A) × (t ≡ returned a))
Try-cases (returned a) = inr (a, refl)
Try-cases (throws e) = inl (e, refl)
