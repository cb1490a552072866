-- ===== src/GasCheck/Signing/Exclusion.antt =====
-- The lock of `runTest` in lib/account-abstraction/gascalc/GasChecker.ts: who holds it, which limits
-- the operations get, and that the promises end.
use bounded_spending_account.Prelude.{
  ℕ, ◌+◌, ◌*◌, ◌≤◌, ◌<◌, ◌≡◌, refl, sym, ap, subst, Bool, true, false, List, [], ◌∷◌, map, length,
  ◌⊎◌, inl, inr, arith,
}
use bounded_spending_account.GasCheck.Signing.{
  Task, estimating, waiting, signing, signed, rejected, arrive_free, arrive_busy, refused, spin,
  wake, finish, fail, Moves, here, there, Reach, start, later,
}

-- How many operations are being filled in and signed.
abbrev pub is_signing : Task → ℕ
is_signing (signing limit) = 1
is_signing _ = 0

abbrev pub signing_count : List Task → ℕ
signing_count [] = 0
signing_count (t ∷ ts) = is_signing t + signing_count ts

abbrev pub as_count : Bool → ℕ
as_count false = 0
as_count true = 1

Moves-count :
    {l l' : Bool} {e e' : ℕ} {ts ts' : List Task}
    → Moves l e ts l' e' ts'
    → signing_count ts ≤ as_count l
    → signing_count ts' + as_count l ≡ signing_count ts + as_count l'
Moves-count (here arrive_free) h = omega arith
Moves-count (here arrive_busy) h = omega arith
Moves-count (here refused) h = omega arith
Moves-count (here spin) h = omega arith
Moves-count (here wake) h = omega arith
Moves-count {l = false} (here finish) h = omega arith
Moves-count {l = true} (here finish) h = omega arith
Moves-count {l = false} (here fail) h = omega arith
Moves-count {l = true} (here fail) h = omega arith
Moves-count (there m) h = omega (arith, Moves-count m (omega arith))

start-count : (es : List ℕ) → signing_count (map estimating es) ≡ 0
start-count [] = refl
start-count (e ∷ es) = omega (arith, start-count es)

-- At any time, the operations that are being filled in and signed are as many as `locked` says: one
-- if it is set, and otherwise none.
pub one_signs_at_a_time :
    (estimates : List ℕ) {locked : Bool} {shared : ℕ} {tasks : List Task}
    → Reach estimates locked shared tasks
    → signing_count tasks ≡ as_count locked
one_signs_at_a_time es start = start-count es
one_signs_at_a_time es (later r m) =
    let before = one_signs_at_a_time es r in
    omega (arith, before, Moves-count m (omega (arith, before)))

-- What is known of a promise when every estimate satisfies `P`.
abbrev pub Known : (ℕ → Type 0) → ℕ → Task → Type 0
Known P shared (estimating e) = P e
Known P shared waiting = P shared
Known P shared (signing limit) = P limit
Known P shared (signed limit) = P limit
Known P shared rejected = Unit

abbrev pub EachKnown : (ℕ → Type 0) → ℕ → List Task → Type 0
EachKnown P shared [] = Unit
EachKnown P shared (t ∷ ts) = Known P shared t × EachKnown P shared ts

abbrev pub EachEstimate : (ℕ → Type 0) → List ℕ → Type 0
EachEstimate P [] = Unit
EachEstimate P (e ∷ es) = P e × EachEstimate P es

module _ (P : ℕ → Type 0) where
  Known-shared : (e : ℕ) {e' : ℕ} (t : Task) → P e' → Known P e t → Known P e' t
  Known-shared _ (estimating e) p k = k
  Known-shared _ waiting p k = p
  Known-shared _ (signing limit) p k = k
  Known-shared _ (signed limit) p k = k
  Known-shared _ rejected p k = k

  EachKnown-shared : (e : ℕ) {e' : ℕ} (ts : List Task) → P e' → EachKnown P e ts → EachKnown P e' ts
  EachKnown-shared e [] p k = k
  EachKnown-shared e (t ∷ ts) p (k, ks) = (Known-shared e t p k, EachKnown-shared e ts p ks)

  -- The shared estimate stays, or is one of which the same is known.
  Moves-shared :
      {l l' : Bool} {e e' : ℕ} {ts ts' : List Task}
      → Moves l e ts l' e' ts'
      → EachKnown P e ts
      → (e' ≡ e) ⊎ P e'
  Moves-shared (here arrive_free) (k, ks) = inr k
  Moves-shared (here arrive_busy) (k, ks) = inr k
  Moves-shared (here refused) (k, ks) = inl refl
  Moves-shared (here spin) (k, ks) = inl refl
  Moves-shared (here wake) (k, ks) = inl refl
  Moves-shared (here finish) (k, ks) = inl refl
  Moves-shared (here fail) (k, ks) = inl refl
  Moves-shared (there m) (k, ks) = Moves-shared m ks

  Moves-EachKnown :
      {l l' : Bool} {e e' : ℕ} {ts ts' : List Task}
      → Moves l e ts l' e' ts'
      → EachKnown P e ts
      → EachKnown P e' ts'
  Moves-EachKnown (here {ts = ts} arrive_free) (k, ks) = (k, EachKnown-shared _ ts k ks)
  Moves-EachKnown (here {ts = ts} arrive_busy) (k, ks) = (k, EachKnown-shared _ ts k ks)
  Moves-EachKnown (here refused) (k, ks) = (tt, ks)
  Moves-EachKnown (here spin) k = k
  Moves-EachKnown (here wake) k = k
  Moves-EachKnown (here finish) k = k
  Moves-EachKnown (here fail) (k, ks) = (tt, ks)
  Moves-EachKnown (there {t = t} m) (k, ks) = (
    elim (Moves-shared m ks) [
      | inl same ↦ subst (λ n. Known P n t) (sym same) k
      | inr p ↦ Known-shared _ t p k
    ],
    Moves-EachKnown m ks,
  )

  start-EachKnown : (es : List ℕ) → EachEstimate P es → EachKnown P 0 (map estimating es)
  start-EachKnown [] p = tt
  start-EachKnown (e ∷ es) (p, ps) = (p, start-EachKnown es ps)

  -- What holds of each of the estimates holds of each limit that an operation is signed with, though
  -- it can be the estimate of another operation.
  pub limits_are_estimates :
      (estimates : List ℕ) {locked : Bool} {shared : ℕ} {tasks : List Task}
      → EachEstimate P estimates
      → Reach estimates locked shared tasks
      → EachKnown P shared tasks
  limits_are_estimates es ps start = start-EachKnown es ps
  limits_are_estimates es ps (later r m) = Moves-EachKnown m (limits_are_estimates es ps r)

-- The waits that a promise has left, without those in the loop.
abbrev pub waits : Task → ℕ
waits (estimating e) = 3
waits waiting = 2
waits (signing limit) = 1
waits (signed limit) = 0
waits rejected = 0

abbrev pub waits_left : List Task → ℕ
waits_left [] = 0
waits_left (t ∷ ts) = waits t + waits_left ts

Moves-waits :
    {l l' : Bool} {e e' : ℕ} {ts ts' : List Task}
    → Moves l e ts l' e' ts'
    → (waits_left ts' < waits_left ts) ⊎ ((l ≡ true) × (l' ≡ true) × (e' ≡ e) × (ts' ≡ ts))
Moves-waits (here arrive_free) = inl (omega arith)
Moves-waits (here arrive_busy) = inl (omega arith)
Moves-waits (here refused) = inl (omega arith)
Moves-waits (here spin) = inr (refl, refl, refl, refl)
Moves-waits (here wake) = inl (omega arith)
Moves-waits (here finish) = inl (omega arith)
Moves-waits (here fail) = inl (omega arith)
Moves-waits (there {t = t} m) = elim (Moves-waits m) [
  | inl fewer ↦ inl (omega (arith, fewer))
  | inr (held, still, same, ts) ↦ inr (held, still, same, ap (λ x. t ∷ x) ts)
]

-- A state that a promise can move to, with fewer waits left.
abbrev pub CanMove : Bool → ℕ → List Task → Type 0
CanMove l e ts =
    (l' : Bool) × (e' : ℕ) × (ts' : List Task) × Moves l e ts l' e' ts'
    × (waits_left ts' < waits_left ts)

CanMove-there :
    {l : Bool} {e : ℕ} (t : Task) {ts : List Task} → CanMove l e ts → CanMove l e (t ∷ ts)
CanMove-there t (l', e', ts', m, fewer) = (l', e', t ∷ ts', there m, omega (arith, fewer))

-- While the lock is free, or one signs, a promise with waits left can move.
can_move :
    (l : Bool) (e : ℕ) (ts : List Task)
    → as_count l ≤ signing_count ts
    → (waits_left ts ≡ 0) ⊎ CanMove l e ts
can_move l e [] h = inl refl
can_move l e (signing limit ∷ ts) h = inr (false, e, signed limit ∷ ts, here finish, omega arith)
can_move false e (estimating n ∷ ts) h =
    inr (true, n, signing n ∷ ts, here arrive_free, omega arith)
can_move true e (estimating n ∷ ts) h = inr (true, n, waiting ∷ ts, here arrive_busy, omega arith)
can_move false e (waiting ∷ ts) h = inr (true, e, signing e ∷ ts, here wake, omega arith)
can_move true e (waiting ∷ ts) h = elim (can_move true e ts (omega (arith, h))) [
  | inl over ↦ absurd (omega (arith, signing-waits ts, over, h))
  | inr next ↦ inr (CanMove-there waiting next)
]
  where
    signing-waits : (ts : List Task) → signing_count ts ≤ waits_left ts
    signing-waits [] = omega arith
    signing-waits (estimating n ∷ ts) = omega (arith, signing-waits ts)
    signing-waits (waiting ∷ ts) = omega (arith, signing-waits ts)
    signing-waits (signing n ∷ ts) = omega (arith, signing-waits ts)
    signing-waits (signed n ∷ ts) = omega (arith, signing-waits ts)
    signing-waits (rejected ∷ ts) = omega (arith, signing-waits ts)
can_move l e (signed limit ∷ ts) h = elim (can_move l e ts (omega (arith, h))) [
  | inl over ↦ inl (omega (arith, over))
  | inr next ↦ inr (CanMove-there (signed limit) next)
]
can_move l e (rejected ∷ ts) h = elim (can_move l e ts (omega (arith, h))) [
  | inl over ↦ inl (omega (arith, over))
  | inr next ↦ inr (CanMove-there rejected next)
]

start-waits : (es : List ℕ) → waits_left (map estimating es) ≡ 3 * length es
start-waits [] = refl
start-waits (e ∷ es) = omega (arith, start-waits es)

-- The promises cannot block each other: each of the at most `3 * length estimates` moves that are
-- not another round of the loop at the lock leaves fewer waits, a round of the loop changes nothing,
-- and until every promise has ended one can make a move that leaves fewer.
pub promises_end :
    (estimates : List ℕ) {locked : Bool} {shared : ℕ} {tasks : List Task}
    → Reach estimates locked shared tasks
    → (waits_left tasks ≤ 3 * length estimates)
      × ((waits_left tasks ≡ 0) ⊎ CanMove locked shared tasks)
      × ((locked' : Bool) (shared' : ℕ) (tasks' : List Task)
          → Moves locked shared tasks locked' shared' tasks'
          → (waits_left tasks' < waits_left tasks)
            ⊎ ((locked ≡ true) × (locked' ≡ true) × (shared' ≡ shared) × (tasks' ≡ tasks)))
promises_end es {locked} {shared} {tasks} r = (
  at_most r,
  can_move locked shared tasks (omega (arith, one_signs_at_a_time es r)),
  λ _ _ _ m. Moves-waits m,
)
  where
    at_most :
        {locked : Bool} {shared : ℕ} {tasks : List Task}
        → Reach es locked shared tasks
        → waits_left tasks ≤ 3 * length es
    at_most start = omega (arith, start-waits es)
    at_most (later r m) = elim (Moves-waits m) [
      | inl fewer ↦ omega (arith, at_most r, fewer)
      | inr (_, _, _, same) ↦ rw same (at_most r)
    ]
