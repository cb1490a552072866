-- ===== src/Client/Operation/Fill/Extends.antt =====
-- Partial operations of lib/account-abstraction/test/UserOp.ts with the same fields and more.
use bounded_spending_account.Prelude.{◌≡◌, refl, ap, sym, ◌∙◌, subst, Option, none, some}
use bounded_spending_account.Client.{Try, returned, returned-injective}
use bounded_spending_account.Client.Operation.Fill.{PartialOp, or_else, or_find}

-- A field that is given stays.
abbrev pub Stays : {A : Type 0} → Option A → Option A → Type 0
Stays none field = Unit
Stays (some given) field = field ≡ some given

-- Each of the fields stays.
pub record Extends (op filled : PartialOp) : Type 0 where
  pub sender : Stays op.sender filled.sender
  pub nonce : Stays op.nonce filled.nonce
  pub init_code : filled.init_code ≡ op.init_code
  pub call_data : filled.call_data ≡ op.call_data
  pub call_gas_limit : Stays op.call_gas_limit filled.call_gas_limit
  pub verification_gas_limit : Stays op.verification_gas_limit filled.verification_gas_limit
  pub pre_verification_gas : filled.pre_verification_gas ≡ op.pre_verification_gas
  pub max_fee_per_gas : Stays op.max_fee_per_gas filled.max_fee_per_gas
  pub max_priority_fee_per_gas : Stays op.max_priority_fee_per_gas filled.max_priority_fee_per_gas
  pub paymaster : filled.paymaster ≡ op.paymaster
  pub paymaster_verification_gas_limit :
      Stays op.paymaster_verification_gas_limit filled.paymaster_verification_gas_limit
  pub paymaster_post_op_gas_limit :
      Stays op.paymaster_post_op_gas_limit filled.paymaster_post_op_gas_limit
  pub paymaster_data : filled.paymaster_data ≡ op.paymaster_data
  pub signature : filled.signature ≡ op.signature

pub Stays-refl : {A : Type 0} (o : Option A) → Stays o o
Stays-refl none = tt
Stays-refl (some a) = refl

Stays-trans : {A : Type 0} (o o' o'' : Option A) → Stays o o' → Stays o' o'' → Stays o o''
Stays-trans none o' o'' h k = tt
Stays-trans (some a) o' o'' h k = subst (λ x. Stays x o'') h k

pub Stays-or_else : {A : Type 0} (default : A) (o : Option A) → Stays o (some (or_else default o))
Stays-or_else default none = tt
Stays-or_else default (some a) = refl

pub Stays-or_find :
    {A : Type 0} (find : Try A) (o : Option A) {a : A}
    → or_find find o ≡ returned a
    → Stays o (some a)
Stays-or_find find none h = tt
Stays-or_find find (some b) h = ap some (sym (returned-injective h))

pub Extends-refl : (op : PartialOp) → Extends op op
Extends-refl op = record {
  sender = Stays-refl op.sender;
  nonce = Stays-refl op.nonce;
  init_code = refl;
  call_data = refl;
  call_gas_limit = Stays-refl op.call_gas_limit;
  verification_gas_limit = Stays-refl op.verification_gas_limit;
  pre_verification_gas = refl;
  max_fee_per_gas = Stays-refl op.max_fee_per_gas;
  max_priority_fee_per_gas = Stays-refl op.max_priority_fee_per_gas;
  paymaster = refl;
  paymaster_verification_gas_limit = Stays-refl op.paymaster_verification_gas_limit;
  paymaster_post_op_gas_limit = Stays-refl op.paymaster_post_op_gas_limit;
  paymaster_data = refl;
  signature = refl;
}

pub Stays-eq : {A : Type 0} {o o' : Option A} → o' ≡ o → Stays o o'
Stays-eq {o = o} h = subst (λ y. Stays o y) (sym h) (Stays-refl o)

pub Extends-trans :
    (op mid filled : PartialOp) → Extends op mid → Extends mid filled → Extends op filled
Extends-trans op mid filled x y = record {
  sender = Stays-trans op.sender mid.sender filled.sender x.sender y.sender;
  nonce = Stays-trans op.nonce mid.nonce filled.nonce x.nonce y.nonce;
  init_code = y.init_code ∙ x.init_code;
  call_data = y.call_data ∙ x.call_data;
  call_gas_limit =
      Stays-trans op.call_gas_limit mid.call_gas_limit filled.call_gas_limit x.call_gas_limit
        y.call_gas_limit;
  verification_gas_limit =
      Stays-trans op.verification_gas_limit mid.verification_gas_limit filled.verification_gas_limit
        x.verification_gas_limit y.verification_gas_limit;
  pre_verification_gas = y.pre_verification_gas ∙ x.pre_verification_gas;
  max_fee_per_gas =
      Stays-trans op.max_fee_per_gas mid.max_fee_per_gas filled.max_fee_per_gas x.max_fee_per_gas
        y.max_fee_per_gas;
  max_priority_fee_per_gas =
      Stays-trans op.max_priority_fee_per_gas mid.max_priority_fee_per_gas
        filled.max_priority_fee_per_gas x.max_priority_fee_per_gas y.max_priority_fee_per_gas;
  paymaster = y.paymaster ∙ x.paymaster;
  paymaster_verification_gas_limit =
      Stays-trans op.paymaster_verification_gas_limit mid.paymaster_verification_gas_limit
        filled.paymaster_verification_gas_limit x.paymaster_verification_gas_limit
        y.paymaster_verification_gas_limit;
  paymaster_post_op_gas_limit =
      Stays-trans op.paymaster_post_op_gas_limit mid.paymaster_post_op_gas_limit
        filled.paymaster_post_op_gas_limit x.paymaster_post_op_gas_limit
        y.paymaster_post_op_gas_limit;
  paymaster_data = y.paymaster_data ∙ x.paymaster_data;
  signature = y.signature ∙ x.signature;
}
