-- ===== src/Client/Signer/Responses.antt =====
-- How the response of lib/account-abstraction/src/AASigner.ts to a transaction is settled.
use bounded_spending_account.Prelude.{
  ℕ, true, false, List, [], ◌∷◌, Option, none, some, leb, ◌==◌, if◌then◌else◌,
}
use bounded_spending_account.Client.Signer.{Event, Settled, receipt, rejected}

-- The verdict of an event: on another operation, on an earlier block or without arguments it has
-- none; a success and a failure without a reason are receipts, and a failure with one an error.
pub verdict : ℕ → ℕ → Event → Option Settled
verdict current_block hash event =
    if leb event.block_number current_block then none else elim event.args [
      | none ↦ none
      | some (event_hash, success) ↦
          if event_hash == hash
          then (if success then some (receipt true) else elim event.revert_reason [
            | none ↦ some (receipt false)
            | some r ↦ some (rejected r)
          ])
          else none
    ]

-- The first verdict of a sequence of events.
pub first_verdict : ℕ → ℕ → List Event → Option Settled
first_verdict current_block hash [] = none
first_verdict current_block hash (event ∷ events) = elim (verdict current_block hash event) [
  | some v ↦ some v
  | none ↦ first_verdict current_block hash events
]
