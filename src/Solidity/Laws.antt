-- ===== src/Solidity/Laws.antt =====
-- Inversion of the results of Solidity code: of a sequence, of a test and of checked arithmetic.
use bounded_spending_account.Prelude.{ℕ, ◌+◌, ◌*◌, ◌<◌, ◌≡◌, refl, Bool, true, false, arith}
use bounded_spending_account.Solidity.{
  word_mod, Revert, Result, ok, revert, ◌>>=◌, ◌>>◌, revert_if, checked_add, checked_mul,
}

-- A sequence that returns: its first part has returned, and the rest has, on that value.
pub >>=-eq-ok {κ ℓ} :
    {B : Type κ} {A : Type ℓ} (first : Result B) (rest : B → Result A) {value : A}
    → (first >>= rest) ≡ ok value
    → (middle : B) × (first ≡ ok middle) × (rest middle ≡ ok value)
>>=-eq-ok (revert reason) rest returns = cc
>>=-eq-ok (ok middle) rest returns = (middle, refl, returns)

pub revert_if-eq-ok {ℓ} :
    {A : Type ℓ} (test : Bool) (reason : Revert) (rest : Result A) {value : A}
    → (revert_if test reason >> rest) ≡ ok value
    → (test ≡ false) × (rest ≡ ok value)
revert_if-eq-ok false reason rest returns = (refl, returns)
revert_if-eq-ok true reason rest returns = cc

pub checked_add-eq-ok :
    (a b : ℕ) {c : ℕ} → checked_add a b ≡ ok c → (c ≡ a + b) × (a + b < word_mod)
unfolding checked_add
checked_add-eq-ok a b h = ground arith

pub checked_mul-eq-ok :
    (a b : ℕ) {c : ℕ} → checked_mul a b ≡ ok c → (c ≡ a * b) × (a * b < word_mod)
unfolding checked_mul
checked_mul-eq-ok a b h = ground arith

pub checked_add-lt : (a b : ℕ) → a + b < word_mod → checked_add a b ≡ ok (a + b)
unfolding checked_add
checked_add-lt a b h = ground arith

pub checked_mul-lt : (a b : ℕ) → a * b < word_mod → checked_mul a b ≡ ok (a * b)
unfolding checked_mul
checked_mul-lt a b h = ground arith

pub ok-injective {ℓ} : {A : Type ℓ} {a b : A} → ok a ≡ ok b → a ≡ b
ok-injective h = cc
