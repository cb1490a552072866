-- ===== src/Solidity/Bytes.antt =====
-- Byte strings as lists of numbers below 256, and the big-endian numbers that they hold.
use bounded_spending_account.Prelude.{
  ℕ, zero, suc, ◌+◌, ◌*◌, ◌/◌, ◌%◌, ◌≤◌, ◌<◌, ◌≡◌, refl, ap, ◌∙◌, List, [], ◌∷◌, ◌++◌, length,
  arith,
}

abbrev pub Bytes : Type 0
Bytes = List ℕ

-- The number that `bs` hold behind the digits `acc`.
unfoldable pub from_be_onto : ℕ → Bytes → ℕ
from_be_onto acc [] = acc
from_be_onto acc (b ∷ bs) = from_be_onto (acc * 256 + b) bs

unfoldable pub from_be : Bytes → ℕ
unfolding from_be_onto
from_be = from_be_onto 0

-- The `width` low bytes of `n`, in front of `rest`.
unfoldable pub to_be_onto : ℕ → ℕ → Bytes → Bytes
to_be_onto zero n rest = rest
to_be_onto (suc width) n rest = to_be_onto width (n / 256) ((n % 256) ∷ rest)

unfoldable pub to_be : ℕ → ℕ → Bytes
unfolding to_be_onto
to_be width n = to_be_onto width n []

-- 256 ^ width by recursion, which the proofs below follow.
abbrev pub pow256 : ℕ → ℕ
pow256 zero = 1
pow256 (suc width) = 256 * pow256 width

length-to_be_onto :
    (width n : ℕ) (rest : Bytes) → length (to_be_onto width n rest) ≡ width + length rest
unfolding to_be_onto
length-to_be_onto zero n rest = omega arith
length-to_be_onto (suc width) n rest =
    omega (arith, length-to_be_onto width (n / 256) ((n % 256) ∷ rest))

pub length-to_be : (width n : ℕ) → length (to_be width n) ≡ width
unfolding to_be
length-to_be width n = omega (arith, length-to_be_onto width n [])

-- Reading back what was written, with digits in front and bytes behind.
from_be-to_be_onto :
    (width n acc : ℕ) (rest : Bytes)
    → n < pow256 width
    → from_be_onto acc (to_be_onto width n rest) ≡ from_be_onto (acc * pow256 width + n) rest
unfolding from_be_onto to_be_onto
from_be-to_be_onto zero n acc rest h = ap (λ k. from_be_onto k rest) (omega arith)
from_be-to_be_onto (suc width) n acc rest h =
    from_be-to_be_onto width (n / 256) acc ((n % 256) ∷ rest) (omega arith)
    ∙ ap (λ k. from_be_onto k rest) (omega arith)

-- A number below 256 ^ width is read back from its bytes.
pub from_be-to_be : (width n : ℕ) → n < pow256 width → from_be (to_be width n) ≡ n
unfolding from_be to_be from_be_onto
from_be-to_be width n h = from_be-to_be_onto width n 0 [] h ∙ omega arith

-- Bytes that follow shift the number in front of them.
pub from_be_onto-to_be :
    (width n acc : ℕ) → n < pow256 width → from_be_onto acc (to_be width n) ≡ acc * pow256 width + n
unfolding to_be from_be_onto
from_be_onto-to_be width n acc h = from_be-to_be_onto width n acc [] h

pub from_be_onto-append :
    (acc : ℕ) (xs ys : Bytes) → from_be_onto acc (xs ++ ys) ≡ from_be_onto (from_be_onto acc xs) ys
unfolding from_be_onto
from_be_onto-append acc [] ys = refl
from_be_onto-append acc (x ∷ xs) ys = from_be_onto-append (acc * 256 + x) xs ys

-- Digits that follow can only raise a number.
pub from_be_onto-le : (acc : ℕ) (bs : Bytes) → acc * pow256 (length bs) ≤ from_be_onto acc bs
unfolding from_be_onto
from_be_onto-le acc [] = omega arith
from_be_onto-le acc (b ∷ bs) = grind (arith, from_be_onto-le (acc * 256 + b) bs)
