-- ===== src/GasCheck/Accounts/Created.antt =====
-- What `createAccounts1` of lib/account-abstraction/gascalc/GasChecker.ts leaves: accounts that it
-- does not create again.
use bounded_spending_account.Prelude.{
  ℕ, zero, suc, ◌+◌, ◌≤◌, ◌≡◌, refl, ap, sym, ◌∙◌, arith, true, false, List, [], ◌∷◌, ◌++◌, none,
}
use bounded_spending_account.Solidity.{Address}
use bounded_spending_account.UserOp.{PackedUserOperation}
use bounded_spending_account.Client.{returned, >>=-eq-returned, returned-injective}
use bounded_spending_account.Client.Deployer.{limit, deploy, get_deployed_address}
use bounded_spending_account.Client.Deployer.Deploys.{deploy_leaves_code}
use bounded_spending_account.GasCheck.{Site, range, range_from, Receipt}
use bounded_spending_account.GasCheck.Accounts.{
  has, insert, Checker, factory_init, creation_ops, fund, note, each_account, create_accounts1,
}

-- The set after an insertion.
has-append : (a b : Address) (bs : List Address) → has a bs ≡ true → has a (bs ++ (b ∷ [])) ≡ true
unfolding has
has-append a b [] h = cc
has-append a b (x ∷ xs) h = ground (arith, has-append a b xs)

has-append_self : (a : Address) (bs : List Address) → has a (bs ++ (a ∷ [])) ≡ true
unfolding has
has-append_self a [] = ground arith
has-append_self a (x ∷ xs) = ground (arith, has-append_self a xs)

has-insert : (a b : Address) (bs : List Address) → has a bs ≡ true → has a (insert b bs) ≡ true
unfolding insert
has-insert a b bs h = ground (arith, has-append a b bs h)

has-insert_self : (a : Address) (bs : List Address) → has a (insert a bs) ≡ true
unfolding insert
has-insert_self a bs = ground (arith, has-append_self a bs)

insert-has : (a : Address) (bs : List Address) → has a bs ≡ true → insert a bs ≡ bs
unfolding insert
insert-has a bs h = rw h refl

-- The checker has an account both among its accounts and among those created.
abbrev pub Knows : Address → Checker → Type 0
Knows a s = (has a s.accounts ≡ true) × (has a s.created_accounts ≡ true)

Knows-note : (a b : Address) (s : Checker) → Knows a s → Knows a (note b s)
unfolding note
Knows-note a b s (h, k) = (has-insert a b s.accounts h, has-insert a b s.created_accounts k)

Knows-note_self : (a : Address) (s : Checker) → Knows a (note a s)
unfolding note
Knows-note_self a s = (has-insert_self a s.accounts, has-insert_self a s.created_accounts)

note-Knows : (a : Address) (s : Checker) → Knows a s → note a s ≡ s
unfolding note
note-Knows a s (h, k) = rw (insert-has a s.accounts h, insert-has a s.created_accounts k) refl

module _ {C : Type 0} (site : Site C) where
  -- The account of a salt.
  abbrev pub at_salt : Address → ℕ → Address
  at_salt factory salt = site.account_address factory site.account_owner salt

  abbrev pub KnowsAll : Address → List ℕ → Checker → Type 0
  KnowsAll factory [] s = Unit
  KnowsAll factory (salt ∷ salts) s = Knows (at_salt factory salt) s × KnowsAll factory salts s

  -- A round of the loop.
  pub each_account_round :
      (factory : Address) (salt : ℕ) (salts : List ℕ) (s : Checker) (c : C)
      {ops : List PackedUserOperation} {s' : Checker} {c' : C}
      → each_account site factory (salt ∷ salts) s c ≡ returned (ops, s', c')
      → (first more : List PackedUserOperation) × (funded : C) × (creation_ops site factory
            (at_salt factory salt)
            salt
            s
            c
          ≡ returned first)
        × (fund site (at_salt factory salt) c ≡ returned funded)
        × (each_account site factory salts (note (at_salt factory salt) s) funded
            ≡ returned (more, s', c'))
        × (ops ≡ first ++ more)
  unfolding each_account
  each_account_round factory salt salts s c h =
      let addr = at_salt factory salt in
      let (first, creates, h1) = >>=-eq-returned (creation_ops site factory addr salt s c) _ h in
      let (funded, funds, h2) = >>=-eq-returned (fund site addr c) _ h1 in
      let ((more, noted, after), goes, h3) =
        >>=-eq-returned (each_account site factory salts (note addr s) funded) _ h2 in
      let e = returned-injective h3 in
      (
        first,
        more,
        funded,
        creates,
        funds,
        goes ∙ ap (λ x. returned (more, x.1, x.2)) e,
        sym (ap (λ x. x.0) e),
      )

  -- The loop forgets no account.
  each_account_keeps :
      (a factory : Address) (salts : List ℕ) (s : Checker) (c : C) {ops : List PackedUserOperation}
      {s' : Checker} {c' : C}
      → each_account site factory salts s c ≡ returned (ops, s', c')
      → Knows a s
      → Knows a s'
  unfolding each_account
  each_account_keeps a factory [] s c h k = ground (arith, returned-injective h, k)
  each_account_keeps a factory (salt ∷ salts) s c h k =
      let (_, _, funded, _, _, goes, _) = each_account_round factory salt salts s c h in
      each_account_keeps a factory salts _ funded goes (Knows-note a (at_salt factory salt) s k)

  pub each_account-KnowsAll :
      (factory : Address) (salts : List ℕ) (s : Checker) (c : C) {ops : List PackedUserOperation}
      {s' : Checker} {c' : C}
      → each_account site factory salts s c ≡ returned (ops, s', c')
      → KnowsAll factory salts s'
  each_account-KnowsAll factory [] s c h = tt
  each_account-KnowsAll factory (salt ∷ salts) s c h =
      let (_, _, funded, _, _, goes, _) = each_account_round factory salt salts s c h in
      (
        each_account_keeps (at_salt factory salt) factory salts _ funded goes
            (Knows-note_self (at_salt factory salt) s),
        each_account-KnowsAll factory salts _ funded goes,
      )

  creation_ops-Knows :
      (factory addr : Address) (salt : ℕ) (s : Checker) (c : C)
      → Knows addr s
      → creation_ops site factory addr salt s c ≡ returned []
  unfolding creation_ops
  creation_ops-Knows factory addr salt s c (_, created) = rw created refl

  -- A loop over accounts that are known creates none and changes no field.
  each_account-none :
      (factory : Address) (salts : List ℕ) (s : Checker) (c : C) {ops : List PackedUserOperation}
      {s' : Checker} {c' : C}
      → KnowsAll factory salts s
      → each_account site factory salts s c ≡ returned (ops, s', c')
      → (ops ≡ []) × (s' ≡ s)
  unfolding each_account
  each_account-none factory [] s c k h =
      let e = returned-injective h in (sym (ap (λ x. x.0) e), sym (ap (λ x. x.1) e))
  each_account-none factory (salt ∷ salts) s c {ops} {s'} (known, all) h =
      let a = at_salt factory salt in
      let (first, more, funded, creates, _, goes, sum) =
        each_account_round factory salt salts s c h in
      let none_first : first ≡ [] =
        returned-injective (sym creates ∙ creation_ops-Knows factory a salt s c known) in
      let noted : note a s ≡ s = note-Knows a s known in
      let (none_more, same) = each_account-none factory salts s funded all (rw noted at goes) in
      (sum ∙ rw (none_first, none_more) refl, same)

  -- What a run of `createAccounts1` has done.
  pub create_accounts1_steps :
      (count : ℕ) (s : Checker) (c : C) {s' : Checker} {c' : C}
      → create_accounts1 site count s c ≡ returned (s', c')
      → (ops : List PackedUserOperation) × (there funded : C) × (receipt : Receipt) × (each_account
            site
            (get_deployed_address site.provider (factory_init site) 0)
            (range count)
            s
            there
          ≡ returned (ops, s', funded))
        × (site.handle_ops ops site.global_signer none funded ≡ returned (receipt, c'))
  unfolding create_accounts1
  create_accounts1_steps count s c h =
      let ((factory, known, there), deploys, h1) =
        >>=-eq-returned (deploy site.provider false (factory_init site) 0 (limit 2885201) c) _ h in
      let ((ops, noted, funded), goes, h2) =
        >>=-eq-returned (each_account site factory (range count) s there) _ h1 in
      let ((receipt, after), handled, h3) =
        >>=-eq-returned (site.handle_ops ops site.global_signer none funded) _ h2 in
      let e = returned-injective h3 in
      let at =
        (deploy_leaves_code site.provider false (factory_init site) 0 (limit 2885201) c
          deploys).0 in
      (
        ops,
        there,
        funded,
        receipt,
        ap (λ f. each_account site f (range count) s there) (sym at)
            ∙ goes
            ∙ ap (λ x. returned (ops, x, funded)) (ap (λ x. x.0) e),
        handled ∙ ap (λ x. returned (receipt, x)) (ap (λ x. x.1) e),
      )

  KnowsAll-fewer :
      (factory : Address) (m n first : ℕ) (s : Checker)
      → m ≤ n
      → KnowsAll factory (range_from first n) s
      → KnowsAll factory (range_from first m) s
  unfolding range_from
  KnowsAll-fewer factory zero n first s le k = tt
  KnowsAll-fewer factory (suc m) zero first s le k = absurd (omega (arith, le))
  KnowsAll-fewer factory (suc m) (suc n) first s le (known, k) =
      (known, KnowsAll-fewer factory m n (first + 1) s (omega (arith, le)) k)

  -- Once `createAccounts1` has returned for a number of accounts, it does nothing to create that
  -- many or fewer: on whatever chain, a run for them that returns sends an empty bundle and changes
  -- no field.
  pub accounts_are_created_once :
      (m n : ℕ) (s : Checker) (c d : C) {s' s'' : Checker} {c' d' : C}
      → m ≤ n
      → create_accounts1 site n s c ≡ returned (s', c')
      → create_accounts1 site m s' d ≡ returned (s'', d')
      → (s'' ≡ s')
        × ((funded : C) × (receipt : Receipt) × (site.handle_ops [] site.global_signer none funded
              ≡ returned (receipt, d')))
  unfolding range
  accounts_are_created_once m n s c d {s'} le first again =
      let factory = get_deployed_address site.provider (factory_init site) 0 in
      let (_, there, _, _, goes, _) = create_accounts1_steps n s c first in
      let (ops, there', funded, receipt, goes', handled) = create_accounts1_steps m s' d again in
      let all = each_account-KnowsAll factory (range n) s there goes in
      let (none_made, same) =
        each_account-none factory (range m) s' there' (KnowsAll-fewer factory m n 0 s' le all)
          goes' in
      (same, (funded, receipt, rw none_made at handled))
