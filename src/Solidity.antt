-- ===== src/Solidity.antt =====
-- What the contracts use of Solidity 0.8: a call that returns or reverts, and the checked
-- arithmetic on uint256. The reverts are those of src/SpendingAccount.sol, src/LimitPolicy.sol,
-- src/SpendingPaymaster.sol and lib/account-abstraction/contracts/core/BasePaymaster.sol.
pub mod Laws
pub mod Bytes
pub mod Abi
use bounded_spending_account.Prelude.{ℕ, ◌+◌, ◌*◌, ◌^◌, Bool, true, false, ltb, if◌then◌else◌}

-- The 20 bytes of an address, as a number.
abbrev pub Address : Type 0
Address = ℕ

abbrev pub word_mod : ℕ
word_mod = 2 ^ 256

pub data Revert : Type 0 where
  -- Panic(0x11); a failed ABI decoding, also where it is Panic(0x41); `revert()`; a call that
  -- failed, whose return data are not modelled
  overflow bad_encoding empty call_failed : Revert
  not_from_entry_point not_from_paymaster not_vault_owner : Revert
  invalid_target_or_selector invalid_selector : Revert
  withdraw_timelock_not_met no_withdraw_requested large_spend_cooldown_active : Revert
  insufficient_gas_for_usdc_transfer : ℕ → ℕ → Revert
  daily_limit_exceeded monthly_limit_exceeded : ℕ → ℕ → Revert
  cost_cap_exceeded post_op_gas_too_low : ℕ → ℕ → Revert
  insufficient_usdc_balance : Address → ℕ → Revert
  sender_not_entry_point invalid_signature : Revert
  -- of OpenZeppelin's `Ownable`
  ownable_unauthorized_account : Address → Revert

-- A call that returns a value, or reverts with a reason.
pub data Result {κ} (V : Type κ) : Type κ where
  revert : Revert → Result V
  ok : V → Result V

infixl 5 ◌>>=◌ ◌>>◌
abbrev pub ◌>>=◌ {κ μ} : {V : Type κ} {W : Type μ} → Result V → (V → Result W) → Result W
revert reason >>= next = revert reason
ok value >>= next = next value

abbrev pub ◌>>◌ {μ} : {W : Type μ} → Result (Unit {0}) → Result W → Result W
first >> next = first >>= λ done. next

-- `if (test) revert e;`
abbrev pub revert_if : Bool → Revert → Result (Unit {0})
revert_if false reason = ok tt
revert_if true reason = revert reason

unfoldable pub checked_add : ℕ → ℕ → Result ℕ
checked_add a b = if ltb (a + b) word_mod then ok (a + b) else revert overflow

unfoldable pub checked_mul : ℕ → ℕ → Result ℕ
checked_mul a b = if ltb (a * b) word_mod then ok (a * b) else revert overflow
