-- ===== src/GasCheck/Report.antt =====
-- `GasCheckCollector` of lib/account-abstraction/gascalc/GasChecker.ts: the singleton, its table,
-- and `addTestRow`. The formatting by the package `table` is a parameter.
pub mod Rows
use Prim.Native.String
use Prim.Native.String.{String}
use bounded_spending_account.Prelude.{ℕ, ◌+◌, ◌-◌, List, [], ◌∷◌, ◌++◌, Option, none, some, map}
use bounded_spending_account.Client.{Try, returned, ◌>>=◌}
use bounded_spending_account.Client.Interfaces.{ℤ, pos, negsuc, minus}
use bounded_spending_account.GasCheck.{Site, Params, Defaults}
use bounded_spending_account.GasCheck.Runs.{
  Estimate, Difference, not_a_number, difference, GasTestResult, Session, run_test,
}

-- The statics of the class: an instance is named by how many were made before it.
pub record Statics : Type 0 where
  pub inst : Option ℕ
  pub init_promise : Option ℕ
  pub made : ℕ

-- `init` until it waits, if it does not return at once, and after the wait.
unfoldable pub init_begins : Statics → Statics
init_begins s = elim s.inst [
  | some inst ↦ s
  | none ↦ elim s.init_promise [
    | some promise ↦ s
    | none ↦ record s { init_promise = some s.made; made = s.made + 1 }
  ]
]

unfoldable pub init_ends : Statics → Statics
init_ends s = record s { inst = s.init_promise }

-- A cell of the table: `''`, a text, a number, an integer, or `NaN`.
pub data Cell : Type 0 where
  blank : Cell
  text : String → Cell
  number : ℕ → Cell
  integer : ℤ → Cell
  nan : Cell

-- `tableHeaders`, and the rows of `initTable`
unfoldable pub init_table : List (List Cell)
init_table =
    (text "handleOps description         "
      ∷ text "count"
      ∷ text "total gasUsed"
      ∷ text "per UserOp gas\n(delta for\none UserOp)"
      ∷ text "per UserOp overhead\n(compared to\naccount.exec())"
      ∷ [])
    ∷ []

-- An integer less a natural number
unfoldable pub less : ℤ → ℕ → ℤ
unfolding minus
less (pos n) m = minus n m
less (negsuc n) m = negsuc (n + m)

unfoldable pub difference_cell : Difference → Cell
difference_cell not_a_number = nan
difference_cell (difference d) = integer d

unfoldable pub overhead_cell : Difference → ℕ → Cell
unfolding less
overhead_cell not_a_number account_est = nan
overhead_cell (difference d) account_est = integer (less d account_est)

-- The row of `addRow`
unfoldable pub row_of : GasTestResult → List Cell
unfolding difference_cell overhead_cell
row_of res = elim res.gas_diff [
  | none ↦ text res.title ∷ number res.count ∷ number res.gas_used ∷ blank ∷ blank ∷ []
  | some diff ↦
      text res.title
      ∷ number res.count
      ∷ blank
      ∷ difference_cell diff
      ∷ overhead_cell diff res.account_est
      ∷ []
]

unfoldable pub add_row : GasTestResult → List (List Cell) → List (List Cell)
unfolding row_of
add_row res tab_rows = tab_rows ++ (row_of res ∷ [])

-- What `doneTable` writes, line by line.
unfoldable pub done_table :
    (List (List Cell) → String) → List Estimate → List (List Cell) → List String
done_table table saved tab_rows =
    "== gas estimate of direct calling the account's \"execute\" method"
    ∷ "   the destination is \"account.entryPoint()\", which is known to be \"hot\" address used by this account"
    ∷ "   it little higher than EOA call: its an exec from entrypoint (or account owner) into account contract, verifying msg.sender and exec to target)"
    ∷ table (
        map
          (λ (row : Estimate).
            text (String.◌++◌ "gas estimate \"" (String.◌++◌ row.title "\""))
            ∷ number row.account_est
            ∷ [])
          saved)
    ∷ table tab_rows
    ∷ []

module _ {C : Type 0} (site : Site C) where
  -- `addTestRow`, once the collector is there
  unfoldable pub add_test_row :
      Defaults → Params → (List (List Cell) × Session) → C → Try ((List (List Cell) × Session) × C)
  unfolding run_test add_row
  add_test_row defaults params (tab_rows, s) c = do
    (res, session, after) ← run_test site defaults params s c
    returned ((add_row res tab_rows, session), after)

  -- One after the other, as an `it` does.
  unfoldable pub add_test_rows :
      Defaults
      → List Params
      → (List (List Cell) × Session)
      → C
      → Try ((List (List Cell) × Session) × C)
  unfolding add_test_row
  add_test_rows defaults [] s c = returned (s, c)
  add_test_rows defaults (params ∷ rest) s c = do
    (next, after) ← add_test_row defaults params s c
    add_test_rows defaults rest next after
