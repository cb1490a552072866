-- ===== src/Client/Queue/Rounds.antt =====
-- The loop of `sendQueuedUserOps` in lib/account-abstraction/src/AASigner.ts, round by round.
use bounded_spending_account.Prelude.{
  ◌+◌, ◌≤◌, ◌≡◌, ◌≢◌, refl, List, [], ◌∷◌, none, some, length, arith, sym, ◌∙◌, subst, inl, inr,
}
use bounded_spending_account.Solidity.{Address}
use bounded_spending_account.UserOp.{PackedUserOperation}
use bounded_spending_account.Client.{Error, returned, throws, Try-cases}
use bounded_spending_account.Client.Operation.{UserOperation, pack_user_op}
use bounded_spending_account.Client.Operation.Packing.{pack_user_op_unpacks}
use bounded_spending_account.Client.Queue.{
  Filing, Counter, unset, nan, counted, decrement, Bundle, take_bundle,
}
use bounded_spending_account.Client.Queue.Filed.{IsAbsent, IsFiled, waiting}

-- No operation of `sender` is in a bundle.
abbrev pub IsUnsent : Address → List PackedUserOperation → Type 0
IsUnsent sender [] = Unit
IsUnsent sender (op ∷ ops) = (sender ≢ op.sender) × IsUnsent sender ops

-- A bundle has at most one operation of each sender.
abbrev pub OneEach : List PackedUserOperation → Type 0
OneEach [] = Unit
OneEach (op ∷ ops) = IsUnsent op.sender ops × OneEach ops

-- The rounds of the loop.
pub take_bundle-none :
    (size : Counter)
    → take_bundle [] size ≡ record { ops = []; queue = []; queue_size = size; error = none }
unfolding take_bundle
take_bundle-none size = refl

pub take_bundle_empty :
    (s : Address) (rest : Filing) (size : Counter)
    → take_bundle ((s, []) ∷ rest) size
      ≡ record (take_bundle rest size) { queue = (s, []) ∷ (take_bundle rest size).queue }
unfolding take_bundle
take_bundle_empty s rest size = refl

take_bundle_throws :
    (s : Address) (op : UserOperation) (ops : List UserOperation) (rest : Filing) (size : Counter)
    {e : Error}
    → pack_user_op op ≡ throws e
    → take_bundle ((s, op ∷ ops) ∷ rest) size
      ≡ record { ops = []; queue = (s, ops) ∷ rest; queue_size = size; error = some e }
unfolding take_bundle
take_bundle_throws s op ops rest size h = rw (h, take_bundle) refl

pub take_bundle_returned :
    (s : Address) (op : UserOperation) (ops : List UserOperation) (rest : Filing) (size : Counter)
    {p : PackedUserOperation}
    → pack_user_op op ≡ returned p
    → take_bundle ((s, op ∷ ops) ∷ rest) size ≡ record (take_bundle rest (decrement size)) {
      ops = p ∷ (take_bundle rest (decrement size)).ops;
      queue = (s, ops) ∷ (take_bundle rest (decrement size)).queue;
    }
unfolding take_bundle
take_bundle_returned s op ops rest size h = rw (h, take_bundle) refl

-- What the loop leaves of a sender that is not filed.
pub take_bundle-IsAbsent :
    (t : Address) (q : Filing) (size : Counter)
    → IsFiled q
    → IsAbsent t q
    → IsAbsent t (take_bundle q size).queue × IsUnsent t (take_bundle q size).ops
take_bundle-IsAbsent t [] size f h = rw take_bundle-none (tt, tt)
take_bundle-IsAbsent t ((s, []) ∷ rest) size (_, _, f) (ne, h) =
    let (absent, unsent) = take_bundle-IsAbsent t rest size f h in
    rw take_bundle_empty ((ne, absent), unsent)
take_bundle-IsAbsent t ((s, op ∷ ops) ∷ rest) size ((from, _), _, f) (ne, h) =
    elim (Try-cases (pack_user_op op)) [
      | inl (e, throws_e) ↦ rw (take_bundle_throws s op ops rest size throws_e) ((ne, h), tt)
      | inr (p, packs) ↦
          let (absent, unsent) = take_bundle-IsAbsent t rest (decrement size) f h in
          let sent : p.sender ≡ s = (pack_user_op_unpacks op packs).4 ∙ from in
          rw (take_bundle_returned s op ops rest size packs)
            ((ne, absent), ((λ e. ne (e ∙ sent)), unsent))
    ]

-- The loop keeps the rest filed, and takes at most one operation of each sender.
pub take_bundle-IsFiled :
    (q : Filing) (size : Counter)
    → IsFiled q
    → IsFiled (take_bundle q size).queue × OneEach (take_bundle q size).ops
take_bundle-IsFiled [] size f = rw take_bundle-none (tt, tt)
take_bundle-IsFiled ((s, []) ∷ rest) size (_, absent, f) =
    let (filed, one) = take_bundle-IsFiled rest size f in
    rw take_bundle_empty ((tt, (take_bundle-IsAbsent s rest size f absent).0, filed), one)
take_bundle-IsFiled ((s, op ∷ ops) ∷ rest) size ((from, all), absent, f) =
    elim (Try-cases (pack_user_op op)) [
      | inl (e, throws_e) ↦
          rw (take_bundle_throws s op ops rest size throws_e) ((all, absent, f), tt)
      | inr (p, packs) ↦
          let (filed, one) = take_bundle-IsFiled rest (decrement size) f in
          let (left, unsent) = take_bundle-IsAbsent s rest (decrement size) f absent in
          let sent : p.sender ≡ s = (pack_user_op_unpacks op packs).4 ∙ from in
          rw (take_bundle_returned s op ops rest size packs) (
            (all, left, filed),
            (
              subst (λ k. IsUnsent k (take_bundle rest (decrement size)).ops) (sym sent) unsent,
              one,
            ),
          )
    ]

-- The loop loses no operation but one that cannot be packed.
pub record IsTaken (q : Filing) (b : Bundle) : Type 0 where
  pub kept : waiting b.queue + length b.ops ≤ waiting q
  pub all : b.error ≡ none → waiting q ≡ length b.ops + waiting b.queue

pub take_bundle-IsTaken : (q : Filing) (size : Counter) → IsTaken q (take_bundle q size)
unfolding waiting
take_bundle-IsTaken [] size = rw take_bundle-none (record { kept = omega arith; all = λ _. refl })
take_bundle-IsTaken ((s, []) ∷ rest) size =
    let i = take_bundle-IsTaken rest size in
    rw take_bundle_empty
      (record { kept = omega (arith, i.kept); all = λ n. omega (arith, i.all n) })
take_bundle-IsTaken ((s, op ∷ ops) ∷ rest) size = elim (Try-cases (pack_user_op op)) [
  | inl (e, throws_e) ↦
      rw (take_bundle_throws s op ops rest size throws_e)
        (record { kept = omega arith; all = λ n. cc })
  | inr (p, packs) ↦
      let i = take_bundle-IsTaken rest (decrement size) in
      rw (take_bundle_returned s op ops rest size packs)
        (record { kept = omega (arith, i.kept); all = λ n. omega (arith, i.all n) })
]

-- A counter that is no number.
abbrev pub IsUnknown : Counter → Type 0
IsUnknown unset = Unit
IsUnknown nan = Unit
IsUnknown (counted n) = ⊥

decrement-IsUnknown : (size : Counter) → IsUnknown size → IsUnknown (decrement size)
unfolding decrement
decrement-IsUnknown unset h = tt
decrement-IsUnknown nan h = tt
decrement-IsUnknown (counted n) h = h

-- The loop makes no number of a counter that is none.
pub take_bundle-IsUnknown :
    (q : Filing) (size : Counter) → IsUnknown size → IsUnknown (take_bundle q size).queue_size
take_bundle-IsUnknown [] size h = rw take_bundle-none h
take_bundle-IsUnknown ((s, []) ∷ rest) size h =
    rw take_bundle_empty (take_bundle-IsUnknown rest size h)
take_bundle-IsUnknown ((s, op ∷ ops) ∷ rest) size h = elim (Try-cases (pack_user_op op)) [
  | inl (e, throws_e) ↦ rw (take_bundle_throws s op ops rest size throws_e) h
  | inr (p, packs) ↦
      rw (take_bundle_returned s op ops rest size packs)
        (take_bundle-IsUnknown rest (decrement size) (decrement-IsUnknown size h))
]
