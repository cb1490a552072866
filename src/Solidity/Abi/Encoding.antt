-- ===== src/Solidity/Abi/Encoding.antt =====
-- The standard encoding of the arguments (address, uint256, bytes), and that the decoder of
-- Abi.antt reads it back.
use mathlib.Core.List.{append_assoc, append-nil}
use bounded_spending_account.Prelude.{
  ℕ, ◌+◌, ◌-◌, ◌%◌, ◌^◌, ◌≤◌, ◌<◌, ◌≡◌, refl, ap, sym, ◌∙◌, [], ◌++◌, length, take, drop, replicate,
  length-append, take-append, drop-append, arith, leb→ltb,
}
use bounded_spending_account.Solidity.{Address, ok, word_mod}
use bounded_spending_account.Solidity.Bytes.{Bytes, from_be, to_be, length-to_be, from_be-to_be}
use bounded_spending_account.Solidity.Abi.{
  Call, word_at, decode_address, decode_size, decode_bytes, decode_call,
}

-- 32 bytes that hold a number.
unfoldable pub word : ℕ → Bytes
word n = to_be 32 n

length-word : (n : ℕ) → length (word n) ≡ 32
unfolding word
length-word n = length-to_be 32 n

-- Zeros up to a multiple of 32 bytes.
unfoldable pub padding : ℕ → Bytes
padding size = replicate ((32 - size % 32) % 32) 0

-- The encoding of a call: target, value, the offset of the data, their length, and the data.
unfoldable pub encode_call : Call → Bytes
encode_call call =
    word call.target
    ++ (word call.value
        ++ (word 96
            ++ (word (length call.payload) ++ (call.payload ++ padding (length call.payload)))))

take-append_of : (k : ℕ) (xs ys : Bytes) → k ≡ length xs → take k (xs ++ ys) ≡ xs
take-append_of k xs ys e = rw e (take-append xs ys)

-- A word behind a prefix of known length is read back.
word_at-append :
    (prefix : Bytes) (n : ℕ) (rest : Bytes) (at : ℕ)
    → at ≡ length prefix
    → n < word_mod
    → word_at (prefix ++ (word n ++ rest)) at ≡ n
unfolding word_at word
word_at-append prefix n rest at e b =
    rw (e, drop-append prefix (word n ++ rest))
      (ap from_be (take-append_of 32 (word n) rest (sym (length-word n))) ∙ from_be-to_be 32 n b)

-- What fits in the words of an encoding.
pub record IsEncodable (call : Call) : Type 0 where
  pub target : call.target < 2 ^ 160
  pub value : call.value < word_mod
  pub payload : length call.payload < 2 ^ 64

module _ (call : Call) (fits : IsEncodable call) where
  -- The encoding behind its first two, three and four words.
  two : Bytes
  two = word call.target ++ word call.value

  three : Bytes
  unfolding two
  three = two ++ word 96

  four : Bytes
  unfolding three
  four = three ++ word (length call.payload)

  tail : Bytes
  tail = call.payload ++ padding (length call.payload)

  encode_call-two : encode_call call ≡ two ++ (word 96 ++ (word (length call.payload) ++ tail))
  unfolding encode_call two tail
  encode_call-two = simp append_assoc

  encode_call-three : encode_call call ≡ three ++ (word (length call.payload) ++ tail)
  unfolding encode_call three tail
  encode_call-three = simp append_assoc

  encode_call-four : encode_call call ≡ four ++ tail
  unfolding encode_call four tail
  encode_call-four = simp append_assoc

  length-two : length two ≡ 64
  unfolding two
  length-two = omega (
    arith,
    length-append (word call.target) (word call.value),
    length-word call.target,
    length-word call.value,
  )

  length-three : length three ≡ 96
  unfolding three
  length-three = omega (arith, length-append two (word 96), length-two, length-word 96)

  length-four : length four ≡ 128
  unfolding four
  length-four = omega (
    arith,
    length-append three (word (length call.payload)),
    length-three,
    length-word (length call.payload),
  )

  length-encode_call : 128 + length call.payload ≤ length (encode_call call)
  unfolding tail
  length-encode_call = omega (
    arith,
    ap length encode_call-four,
    length-append four tail,
    length-four,
    length-append call.payload (padding (length call.payload)),
  )

  target_word : word_at (encode_call call) 0 ≡ call.target
  unfolding encode_call
  target_word = word_at-append [] call.target _ 0 refl (omega (arith, fits.target))

  value_word : word_at (encode_call call) 32 ≡ call.value
  unfolding encode_call
  value_word =
      word_at-append (word call.target) call.value _ 32 (sym (length-word call.target)) fits.value

  offset_word : word_at (encode_call call) 64 ≡ 96
  offset_word =
      ap (λ bs. word_at bs 64) encode_call-two
      ∙ word_at-append two 96 _ 64 (sym length-two) (omega arith)

  size_word : word_at (encode_call call) 96 ≡ length call.payload
  size_word =
      ap (λ bs. word_at bs 96) encode_call-three
      ∙ word_at-append three (length call.payload) tail 96 (sym length-three)
          (omega (arith, fits.payload))

  payload_bytes : take (length call.payload) (drop 128 (encode_call call)) ≡ call.payload
  unfolding tail
  payload_bytes =
      ap (λ bs. take (length call.payload) (drop 128 bs)) encode_call-four
      ∙ ap (λ k. take (length call.payload) (drop k (four ++ tail))) (sym length-four)
      ∙ ap (λ bs. take (length call.payload) bs) (drop-append four tail)
      ∙ take-append call.payload (padding (length call.payload))

  target_read : decode_address (encode_call call) 0 ≡ ok call.target
  unfolding decode_address
  target_read = rw target_word (rw (leb→ltb (2 ^ 160 - 1) call.target (omega (arith, fits.target))))

  offset_read : decode_size (encode_call call) 64 ≡ ok 96
  unfolding decode_size
  offset_read = rw offset_word

  size_read : decode_size (encode_call call) 96 ≡ ok (length call.payload)
  unfolding decode_size
  size_read =
      rw size_word (rw (leb→ltb (2 ^ 64 - 1) (length call.payload) (omega (arith, fits.payload))))

  payload_read : decode_bytes (encode_call call) 96 ≡ ok call.payload
  unfolding decode_bytes
  payload_read = rw (leb→ltb (length (encode_call call)) 128 (omega (arith, length-encode_call))) (
      rw size_read (
        rw (leb→ltb (length (encode_call call)) (128 + length call.payload) length-encode_call)
          (ap (λ bs. ok bs) payload_bytes)))

  pub decode-encode_call : decode_call (encode_call call) 0 ≡ ok call
  unfolding decode_call
  decode-encode_call =
      rw (leb→ltb (length (encode_call call)) 96 (omega (arith, length-encode_call))) (
        rw target_read
          (rw offset_read (rw payload_read (ap (λ v. ok (record call { value = v })) value_word))))

-- An encoded address is read back.
pub decode_address-to_be : (a : Address) → a < 2 ^ 160 → decode_address (to_be 32 a) 0 ≡ ok a
unfolding decode_address word_at
decode_address-to_be a b =
    let whole : take 32 (to_be 32 a) ≡ to_be 32 a =
      ap (λ bs. take 32 bs) (sym (append-nil (to_be 32 a)))
      ∙ take-append_of 32 (to_be 32 a) [] (sym (length-to_be 32 a)) in
    rw (whole, from_be-to_be 32 a (omega arith)) (rw (leb→ltb (2 ^ 160 - 1) a (omega arith)))
