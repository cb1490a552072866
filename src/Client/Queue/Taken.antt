-- ===== src/Client/Queue/Taken.antt =====
-- What one round of the loop in `sendQueuedUserOps` of lib/account-abstraction/src/AASigner.ts takes
-- of each sender, where every operation can be packed.
use bounded_spending_account.Prelude.{
  ℕ, suc, ◌≤◌, ◌≡◌, refl, List, [], ◌∷◌, ◌++◌, none, length, arith, ap, sym, ◌∙◌, subst, inl, inr,
  Bool-cases, ◌==◌, if◌then◌else◌, ==_iff,
}
use bounded_spending_account.Solidity.{Address}
use bounded_spending_account.UserOp.{PackedUserOperation}
use bounded_spending_account.Client.{returned}
use bounded_spending_account.Client.Operation.{UserOperation, pack_user_op}
use bounded_spending_account.Client.Operation.Packing.{pack_user_op_unpacks}
use bounded_spending_account.Client.Queue.{Filing, Counter, decrement, Bundle, take_bundle}
use bounded_spending_account.Client.Queue.Filed.{IsFiled, waiting}
use bounded_spending_account.Client.Queue.Rounds.{
  IsUnsent, take_bundle-none, take_bundle_empty, take_bundle_returned, take_bundle-IsAbsent,
}

-- Of a list of operations, those of one sender.
unfoldable pub sent_by : Address → List PackedUserOperation → List PackedUserOperation
sent_by t [] = []
sent_by t (op ∷ ops) = let rest = sent_by t ops in if op.sender == t then op ∷ rest else rest

-- The operations of one sender that wait.
unfoldable pub queued : Address → Filing → List UserOperation
queued t [] = []
queued t ((s, ops) ∷ rest) = let others = queued t rest in if s == t then ops else others

-- Each operation in the first list packs to the one in the second list.
abbrev pub PackTo : List UserOperation → List PackedUserOperation → Type 0
PackTo [] [] = Unit
PackTo [] (p ∷ ps) = ⊥
PackTo (op ∷ ops) [] = ⊥
PackTo (op ∷ ops) (p ∷ ps) = (pack_user_op op ≡ returned p) × PackTo ops ps

abbrev pub AllPackable : List UserOperation → Type 0
AllPackable [] = Unit
AllPackable (op ∷ ops) =
    ((p : PackedUserOperation) × (pack_user_op op ≡ returned p)) × AllPackable ops

-- Every operation that waits can be packed.
abbrev pub IsPackable : Filing → Type 0
IsPackable [] = Unit
IsPackable ((s, ops) ∷ rest) = AllPackable ops × IsPackable rest

-- No sender has more than `n` operations.
abbrev pub IsWithin : ℕ → Filing → Type 0
IsWithin n [] = Unit
IsWithin n ((s, ops) ∷ rest) = (length ops ≤ n) × IsWithin n rest

pub IsWithin-waiting : (q : Filing) → IsWithin 0 q → waiting q ≡ 0
unfolding waiting
IsWithin-waiting [] h = refl
IsWithin-waiting ((s, ops) ∷ rest) (h, hs) =
    let none_waits = IsWithin-waiting rest hs in omega arith

IsUnsent-sent_by :
    (t : Address) (ops : List PackedUserOperation) → IsUnsent t ops → sent_by t ops ≡ []
unfolding sent_by
IsUnsent-sent_by t [] h = refl
IsUnsent-sent_by t (op ∷ ops) (ne, h) = elim (Bool-cases (op.sender == t)) [
  | inl e ↦ absurd (ne (sym ((==_iff op.sender t).0 e)))
  | inr e ↦ rw e (IsUnsent-sent_by t ops h)
]

-- What one round of the loop does where every operation can be packed.
pub record IsRound (q : Filing) (b : Bundle) : Type 0 where
  pub whole : b.error ≡ none
  pub packable : IsPackable b.queue
  pub within : (n : ℕ) → IsWithin (suc n) q → IsWithin n b.queue

pub take_bundle-IsRound :
    (q : Filing) (size : Counter) → IsPackable q → IsRound q (take_bundle q size)
take_bundle-IsRound [] size h =
    rw take_bundle-none (record { whole = refl; packable = tt; within = λ n w. tt })
take_bundle-IsRound ((s, []) ∷ rest) size (_, h) =
    let i = take_bundle-IsRound rest size h in
    rw take_bundle_empty (record {
      whole = i.whole;
      packable = (tt, i.packable);
      within = λ n (_, w). (omega arith, i.within n w);
    })
take_bundle-IsRound ((s, op ∷ ops) ∷ rest) size (((p, packs), all), h) =
    let i = take_bundle-IsRound rest (decrement size) h in
    rw (take_bundle_returned s op ops rest size packs) (record {
      whole = i.whole;
      packable = (all, i.packable);
      within = λ n (l, w). (omega arith, i.within n w);
    })

pub sent_by-append :
    (t : Address) (ops ops' : List PackedUserOperation)
    → sent_by t (ops ++ ops') ≡ sent_by t ops ++ sent_by t ops'
unfolding sent_by
sent_by-append t [] ops' = refl
sent_by-append t (op ∷ ops) ops' = elim (Bool-cases (op.sender == t)) [
  | inl e ↦ rw e (ap (λ x. op ∷ x) (sent_by-append t ops ops'))
  | inr e ↦ rw e (sent_by-append t ops ops')
]

-- If the operations of a sender that are left pack to `ps`, then all of them pack to the one that is
-- taken and `ps`.
pub take_bundle-PackTo :
    (t : Address) (q : Filing) (size : Counter) (ps : List PackedUserOperation)
    → IsFiled q
    → IsPackable q
    → PackTo (queued t (take_bundle q size).queue) ps
    → PackTo (queued t q) (sent_by t (take_bundle q size).ops ++ ps)
unfolding queued sent_by
take_bundle-PackTo t [] size ps f h k = rw take_bundle-none (rw take_bundle-none at k)
take_bundle-PackTo t ((s, []) ∷ rest) size ps (_, absent, f) (_, h) k =
    let (_, unsent) = take_bundle-IsAbsent s rest size f absent in
    rw take_bundle_empty (elim (Bool-cases (s == t)) [
      | inl e ↦
          let none_sent =
            IsUnsent-sent_by t (take_bundle rest size).ops
              (subst (λ x. IsUnsent x (take_bundle rest size).ops) ((==_iff s t).0 e) unsent) in
          rw (e, none_sent) (rw (take_bundle_empty, e) at k)
      | inr e ↦ rw e (take_bundle-PackTo t rest size ps f h (rw (take_bundle_empty, e) at k))
    ])
take_bundle-PackTo t ((s, op ∷ ops) ∷ rest) size ps ((from, _), absent, f) (((p, packs), _), h) k =
    let less = decrement size in
    let (_, unsent) = take_bundle-IsAbsent s rest less f absent in
    let by : p.sender ≡ s = (pack_user_op_unpacks op packs).4 ∙ from in
    let taken = take_bundle_returned s op ops rest size packs in
    rw taken (elim (Bool-cases (s == t)) [
      | inl e ↦
          let none_sent =
            IsUnsent-sent_by t (take_bundle rest less).ops
              (subst (λ x. IsUnsent x (take_bundle rest less).ops) ((==_iff s t).0 e) unsent) in
          rw (e, ap (λ x. x == t) by ∙ e, none_sent) (packs, rw (taken, e) at k)
      | inr e ↦
          rw (e, ap (λ x. x == t) by ∙ e)
            (take_bundle-PackTo t rest less ps f h (rw (taken, e) at k))
    ])

pub IsWithin-PackTo : (t : Address) (q : Filing) → IsWithin 0 q → PackTo (queued t q) []
unfolding queued
IsWithin-PackTo t [] h = tt
IsWithin-PackTo t ((s, []) ∷ rest) (_, hs) = elim (Bool-cases (s == t)) [
  | inl e ↦ rw e tt
  | inr e ↦ rw e (IsWithin-PackTo t rest hs)
]
IsWithin-PackTo t ((s, op ∷ ops) ∷ rest) (h, hs) = absurd (omega (arith, h))
