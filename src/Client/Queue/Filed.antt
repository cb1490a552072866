-- ===== src/Client/Queue/Filed.antt =====
-- The operations in the queue of lib/account-abstraction/src/AASigner.ts are filed under their
-- senders, each sender once, and are counted.
use bounded_spending_account.Prelude.{
  ℕ, ◌+◌, ◌≡◌, ◌≢◌, List, [], ◌∷◌, ◌++◌, length, ◌==◌, arith, sym, ◌∙◌, Bool-cases, inl, inr,
  ==_iff,
}
use bounded_spending_account.Solidity.{Address}
use bounded_spending_account.Client.Operation.{UserOperation}
use bounded_spending_account.Client.Queue.{Filing, file}

-- No operation of `sender` is filed.
abbrev pub IsAbsent : Address → Filing → Type 0
IsAbsent sender [] = Unit
IsAbsent sender ((other, ops) ∷ rest) = (sender ≢ other) × IsAbsent sender rest

abbrev pub AllFrom : Address → List UserOperation → Type 0
AllFrom sender [] = Unit
AllFrom sender (op ∷ ops) = (op.sender ≡ sender) × AllFrom sender ops

-- Each operation stands under its sender, and no sender twice.
abbrev pub IsFiled : Filing → Type 0
IsFiled [] = Unit
IsFiled ((sender, ops) ∷ rest) = AllFrom sender ops × IsAbsent sender rest × IsFiled rest

-- How many operations wait.
unfoldable pub waiting : Filing → ℕ
waiting [] = 0
waiting ((sender, ops) ∷ rest) = length ops + waiting rest

AllFrom-append :
    (sender : Address) (op : UserOperation) (ops : List UserOperation)
    → op.sender ≡ sender
    → AllFrom sender ops
    → AllFrom sender (ops ++ (op ∷ []))
AllFrom-append sender op [] e h = (e, tt)
AllFrom-append sender op (x ∷ ops) e (f, h) = (f, AllFrom-append sender op ops e h)

file-IsAbsent :
    (sender other : Address) (op : UserOperation) (q : Filing)
    → other ≢ sender
    → IsAbsent other q
    → IsAbsent other (file sender op q)
unfolding file
file-IsAbsent sender other op [] ne h = (ne, tt)
file-IsAbsent sender other op ((t, ops) ∷ rest) ne (h, hs) = elim (Bool-cases (t == sender)) [
  | inl e ↦ rw e (h, hs)
  | inr e ↦ rw e (h, file-IsAbsent sender other op rest ne hs)
]

pub file-IsFiled :
    (sender : Address) (op : UserOperation) (q : Filing)
    → op.sender ≡ sender
    → IsFiled q
    → IsFiled (file sender op q)
unfolding file
file-IsFiled sender op [] e h = ((e, tt), tt, tt)
file-IsFiled sender op ((t, ops) ∷ rest) e (from, absent, filed) = elim (Bool-cases (t == sender)) [
  | inl same ↦
      rw same (AllFrom-append t op ops (e ∙ sym ((==_iff t sender).0 same)) from, absent, filed)
  | inr other ↦
      let ne : t ≢ sender = ground arith in
      rw other (from, file-IsAbsent sender t op rest ne absent, file-IsFiled sender op rest e filed)
]
