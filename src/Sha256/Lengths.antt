-- ===== src/Sha256/Lengths.antt =====
-- src/sha256.c: the state stays one of eight words, and a digest has 32 bytes.
use thalovant_embedded_c.Base.{
  ℕ, zero, suc, ◌-◌, ◌*◌, min, List, [], ◌∷◌, ◌++◌, ◌≡◌, refl, ap, ◌∙◌, inl, inr, Bytes, length,
  take, drop, ◌==◌, arith, Bool-cases,
}
use thalovant_embedded_c.Sha256.{
  Hash, Sha256Ctx, add_words, sha256_block, sha256_init, flush, absorb, sha256_update, fill_zeros,
  length_be, state_bytes, sha256_final,
}

length-add_words : (xs ys : List ℕ) → length (add_words xs ys) ≡ length xs
unfolding add_words
length-add_words [] ys = refl
length-add_words (x ∷ xs) [] = refl
length-add_words (x ∷ xs) (y ∷ ys) = ap suc (length-add_words xs ys)

length-sha256_block : (st : List ℕ) (block : Bytes) → length (sha256_block st block) ≡ length st
unfolding sha256_block
length-sha256_block st block = length-add_words st _

length-flush : (st : List ℕ) (buf : Bytes) → length (flush st buf).state ≡ length st
unfolding flush
length-flush st buf = elim (Bool-cases (length buf == 64)) [
  | inl e ↦ rw e (length-sha256_block st buf)
  | inr e ↦ rw e refl
]

length-absorb :
    (fuel : ℕ) (hash : Hash) (input : Bytes)
    → length (absorb fuel hash input).state ≡ length hash.state
unfolding absorb
length-absorb zero hash input = refl
length-absorb (suc fuel) hash [] = refl
length-absorb (suc fuel) hash (x ∷ rest) =
    let n = min (64 - length hash.buffer) (length (x ∷ rest)) in
    let next = hash.buffer ++ take n (x ∷ rest) in
    length-absorb fuel (flush hash.state next) (drop n (x ∷ rest)) ∙ length-flush hash.state next

-- The words of the state of a context.
abbrev pub words : Sha256Ctx → ℕ
words ctx = length ctx.hash.state

pub words-sha256_update :
    (ctx : Sha256Ctx) (input : Bytes) → words (sha256_update ctx input) ≡ words ctx
unfolding sha256_update
words-sha256_update ctx input = length-absorb (length input) ctx.hash input

words-fill_zeros : (fuel : ℕ) (ctx : Sha256Ctx) → words (fill_zeros fuel ctx) ≡ words ctx
unfolding fill_zeros
words-fill_zeros zero ctx = refl
words-fill_zeros (suc fuel) ctx = elim (Bool-cases (length ctx.hash.buffer == 56)) [
  | inl e ↦ rw e refl
  | inr e ↦
      rw e (words-fill_zeros fuel (sha256_update ctx (0 ∷ [])) ∙ words-sha256_update ctx (0 ∷ []))
]

length-state_bytes : (st : List ℕ) → length (state_bytes st) ≡ 4 * length st
unfolding state_bytes
length-state_bytes [] = refl
length-state_bytes (v ∷ vs) = omega (arith, length-state_bytes vs)

pub length-sha256_final : (ctx : Sha256Ctx) → words ctx ≡ 8 → length (sha256_final ctx) ≡ 32
unfolding sha256_final
length-sha256_final ctx h =
    let full = sha256_update ctx (0x80 ∷ []) in
    let padded = fill_zeros 64 full in
    let block = padded.hash.buffer ++ length_be ctx.bits in
    omega (
      arith,
      length-state_bytes (sha256_block padded.hash.state block),
      length-sha256_block padded.hash.state block,
      words-fill_zeros 64 full,
      words-sha256_update ctx (0x80 ∷ []),
    )

pub words-sha256_init : words sha256_init ≡ 8
unfolding sha256_init
words-sha256_init = refl
