-- ===== src/Client/Interfaces/Ids.antt =====
-- The number behind the interface id of lib/account-abstraction/src/Utils.ts.
use Prim.Native.Nat.{bit_xor}
use bounded_spending_account.Prelude.{
  ℕ, ◌+◌, ◌%◌, ◌^◌, ◌<◌, ◌≡◌, refl, sym, ap₂, subst, List, [], ◌∷◌, ltb, ◌==◌, if◌then◌else◌, arith,
  Bool-cases, inl, inr,
}
use bounded_spending_account.Client.{returned, returned-injective}
use bounded_spending_account.Client.Interfaces.{
  ℤ, pos, negsuc, to_uint32, to_int32, xor, reduce_from, reduce, unsigned,
}

-- The bitwise sum of words of 32 bits, in front of `x`.
pub xor_all : ℕ → List ℕ → ℕ
xor_all x [] = x
xor_all x (y ∷ ys) = xor_all (bit_xor x y % 2 ^ 32) ys

abbrev pub AreSelectors : List ℕ → Type 0
AreSelectors [] = Unit
AreSelectors (x ∷ xs) = (x < 2 ^ 32) × AreSelectors xs

-- An integer that stands for a word: the word itself, or less 2^32.
abbrev Stands : ℤ → ℕ → Type 0
Stands (pos n) bits = (n ≡ bits) × (bits < 2 ^ 32)
Stands (negsuc n) bits = (n + 1 + bits ≡ 2 ^ 32) × (0 < bits)

to_int32-Stands : (bits : ℕ) → Stands (to_int32 bits) (bits % 2 ^ 32)
unfolding to_int32
to_int32-Stands bits = elim (Bool-cases (ltb (bits % 2 ^ 32) (2 ^ 31))) [
  | inl e ↦ rw e (ground arith)
  | inr e ↦ rw e (ground arith)
]

to_uint32-Stands : (x : ℤ) (bits : ℕ) → Stands x bits → to_uint32 x ≡ bits
unfolding to_uint32
to_uint32-Stands (pos n) bits h = omega arith
to_uint32-Stands (negsuc n) bits h = omega arith

reduce_from-Stands :
    (x : ℤ) (bits : ℕ) (ys : List ℕ)
    → Stands x bits
    → AreSelectors ys
    → Stands (reduce_from x ys) (xor_all bits ys)
unfolding reduce_from xor_all xor
reduce_from-Stands x bits [] h s = h
reduce_from-Stands x bits (y ∷ ys) h (b, s) =
    let word : bit_xor (to_uint32 x) (to_uint32 (pos y)) ≡ bit_xor bits y =
      ap₂ (λ a k. bit_xor a k) (to_uint32-Stands x bits h) (to_uint32-Stands (pos y) y (refl, b)) in
    reduce_from-Stands (xor x (pos y)) (bit_xor bits y % 2 ^ 32) ys
      (subst (λ k. Stands (to_int32 k) (bit_xor bits y % 2 ^ 32)) (sym word)
        (to_int32-Stands (bit_xor bits y)))
      s

unsigned-Stands :
    (x : ℤ) (bits : ℕ) → Stands x bits → unsigned x ≡ (if bits == 0 then 2 ^ 32 else bits)
unfolding unsigned
unsigned-Stands (pos n) bits h = ground arith
unsigned-Stands (negsuc n) bits h = ground arith

-- For selectors of 32 bits, at least one, the number that is printed is their bitwise sum, with the
-- sign of JavaScript's operator undone; but where the selectors cancel out, so that the sum is 0,
-- it is 2^32.
pub interface_number :
    (x : ℕ) (xs : List ℕ) {id : ℤ}
    → AreSelectors (x ∷ xs)
    → reduce (x ∷ xs) ≡ returned id
    → unsigned id ≡ (if xor_all x xs == 0 then 2 ^ 32 else xor_all x xs)
unfolding reduce
interface_number x xs {id} (b, s) h = unsigned-Stands id (xor_all x xs) (
    subst (λ k. Stands k (xor_all x xs)) (returned-injective h)
      (reduce_from-Stands (pos x) x xs (refl, b) s))
