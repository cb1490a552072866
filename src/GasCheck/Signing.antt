-- ===== src/GasCheck/Signing.antt =====
-- How the promises of `runTest` in lib/account-abstraction/gascalc/GasChecker.ts interleave, from
-- the answer to each estimate to the signed operation: the field `locked` and the variable
-- `accountEst` are shared. Code between two waits runs at once.
pub mod Exclusion
use bounded_spending_account.Prelude.{ℕ, Bool, true, false, List, [], ◌∷◌, map}

-- Where the promise of an operation stands.
pub data Task : Type 0 where
  -- waits for its estimate, which is the given number if the request does not fail
  estimating : ℕ → Task
  -- in the loop `while (this.locked)`
  waiting : Task
  -- has set `locked`, and called `fillSignAndPack` with the limit
  signing : ℕ → Task
  -- after `finally`
  signed : ℕ → Task
  rejected : Task

-- A promise runs until it waits again: `locked`, `accountEst` and the promise, before and after.
pub data Move : Bool → ℕ → Task → Bool → ℕ → Task → Type 0 where
  arrive_free : {e shared : ℕ} → Move false shared (estimating e) true e (signing e)
  arrive_busy : {e shared : ℕ} → Move true shared (estimating e) true e waiting
  refused :
      {locked : Bool} {e shared : ℕ} → Move locked shared (estimating e) locked shared rejected
  spin : {shared : ℕ} → Move true shared waiting true shared waiting
  wake : {shared : ℕ} → Move false shared waiting true shared (signing shared)
  finish :
      {locked : Bool} {shared limit : ℕ}
      → Move locked shared (signing limit) false shared (signed limit)
  fail :
      {locked : Bool} {shared limit : ℕ} → Move locked shared (signing limit) false shared rejected

-- One of several promises moves.
pub data Moves : Bool → ℕ → List Task → Bool → ℕ → List Task → Type 0 where
  here :
      {l l' : Bool} {e e' : ℕ} {t t' : Task} {ts : List Task}
      → Move l e t l' e' t'
      → Moves l e (t ∷ ts) l' e' (t' ∷ ts)
  there :
      {l l' : Bool} {e e' : ℕ} {t : Task} {ts ts' : List Task}
      → Moves l e ts l' e' ts'
      → Moves l e (t ∷ ts) l' e' (t ∷ ts')

-- What the promises can reach from the estimates.
pub data Reach (estimates : List ℕ) : Bool → ℕ → List Task → Type 0 where
  start : Reach estimates false 0 (map estimating estimates)
  later :
      {l l' : Bool} {e e' : ℕ} {ts ts' : List Task}
      → Reach estimates l e ts
      → Moves l e ts l' e' ts'
      → Reach estimates l' e' ts'
