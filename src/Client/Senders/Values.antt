-- ===== src/Client/Senders/Values.antt =====
-- The request of `rpcUserOpSender` in lib/account-abstraction/src/AASigner.ts means what the
-- operation means.
use bounded_spending_account.Prelude.{ℕ, zero, suc, ◌+◌, ◌*◌, ◌^◌, ◌<◌, ◌≡◌, List, [], ◌∷◌}
use bounded_spending_account.Client.Senders.{Value, hex, number, other, Fields}

-- The number that hex digits hold behind the digits of another.
pub value_onto : ℕ → List ℕ → ℕ
value_onto front [] = front
value_onto front (digit ∷ digits) = value_onto (front * 16 + digit) digits

abbrev pow16 : ℕ → ℕ
pow16 zero = 1
pow16 (suc k) = 16 * pow16 k

-- A field means its cleaned digits: the same digits, or the same number.
abbrev pub Means : Value → List ℕ → Type 0
Means (hex digits) cleaned = cleaned ≡ digits
Means (number n) cleaned = value_onto 0 cleaned ≡ n
Means other cleaned = ⊥

-- The numbers among the fields are below 2^256.
abbrev pub AreWords : {Key : Type 0} → Fields Key Value → Type 0
AreWords [] = Unit
AreWords ((key, number n) ∷ fields) = (n < 2 ^ 256) × AreWords fields
AreWords ((key, hex digits) ∷ fields) = AreWords fields
AreWords ((key, other) ∷ fields) = AreWords fields

-- The same keys in the same order, with fields that mean the same.
abbrev pub Keeps : {Key : Type 0} → Fields Key Value → Fields Key (List ℕ) → Type 0
Keeps [] [] = Unit
Keeps [] (cleaned ∷ rest) = ⊥
Keeps (field ∷ fields) [] = ⊥
Keeps ((key, value) ∷ fields) ((key', cleaned) ∷ rest) =
    (key' ≡ key) × Means value cleaned × Keeps fields rest
