-- ===== src/AesGcm/Lengths.antt =====
-- src/aes_gcm.c: the sizes of the round keys, of a block and of a tag.
use thalovant_embedded_c.Base.{
  ℕ, zero, suc, ◌+◌, ◌-◌, ◌*◌, ◌/◌, ◌%◌, ◌^◌, ◌≤◌, min, Bool, true, false, [], ◌∷◌, ◌++◌, map, ◌≡◌,
  refl, inl, inr, bit_and, bit_xor, Bytes, length, length-append, length-take, length-drop,
  length-map, length-set, take, drop, replicate, get_or, ◌==◌, if◌then◌else◌, arith, Bool-cases,
}
use thalovant_embedded_c.AesGcm.{
  zip_xor, schedule128, next_word, expand128, aes128_init, shift_rows, cipher_rounds,
  aes128_encrypt_block, schedule256, expand256, aes256_init, aes256_encrypt_block, mix_columns,
}
use thalovant_embedded_c.AesGcm.Gcm.{
  shift_right, gf128_loop, gf128_mul, ghash_block, ghash_lengths, derive_j0,
}

pub length-zip_xor : (xs ys : Bytes) → length (zip_xor xs ys) ≡ min (length xs) (length ys)
unfolding zip_xor
length-zip_xor [] ys = omega arith
length-zip_xor (x ∷ xs) [] = omega arith
length-zip_xor (x ∷ xs) (y ∷ ys) = omega (arith, length-zip_xor xs ys)

length-next_word : (back i : ℕ) (rk t : Bytes) → length (next_word back i rk t) ≡ 4
unfolding next_word
length-next_word back i rk t = refl

length-expand128 :
    (rounds i rcon : ℕ) (rk : Bytes) → length (expand128 rounds i rcon rk) ≡ length rk + 4 * rounds
unfolding expand128
length-expand128 zero i rcon rk = omega arith
length-expand128 (suc rounds) i rcon rk =
    let t = schedule128 i rcon rk in
    let rcon' = if i % 16 == 0 then rcon + 1 else rcon in
    omega (
      arith,
      length-expand128 rounds (i + 4) rcon' (rk ++ next_word 16 i rk t),
      length-append rk (next_word 16 i rk t),
      length-next_word 16 i rk t,
    )

length-expand256 :
    (rounds i rcon : ℕ) (rk : Bytes) → length (expand256 rounds i rcon rk) ≡ length rk + 4 * rounds
unfolding expand256
length-expand256 zero i rcon rk = omega arith
length-expand256 (suc rounds) i rcon rk =
    let t = schedule256 i rcon rk in
    let rcon' = if i % 32 == 0 then rcon + 1 else rcon in
    omega (
      arith,
      length-expand256 rounds (i + 4) rcon' (rk ++ next_word 32 i rk t),
      length-append rk (next_word 32 i rk t),
      length-next_word 32 i rk t,
    )

length-mix_columns : (s : Bytes) → length (mix_columns s) ≡ length s
unfolding mix_columns
length-mix_columns [] = refl
length-mix_columns (a ∷ []) = refl
length-mix_columns (a ∷ b ∷ []) = refl
length-mix_columns (a ∷ b ∷ c ∷ []) = refl
length-mix_columns (a ∷ b ∷ c ∷ d ∷ s) = omega (arith, length-mix_columns s)

length-shift_rows : (s : Bytes) → length (shift_rows s) ≡ 16
unfolding shift_rows
length-shift_rows s = refl

length-round_key : (rk : Bytes) (n : ℕ) → n + 16 ≤ length rk → length (take 16 (drop n rk)) ≡ 16
length-round_key rk n h = omega (arith, length-take 16 (drop n rk), length-drop n rk)

length-cipher_rounds :
    (sub : ℕ → ℕ) (rk : Bytes) (last left round : ℕ) (s : Bytes)
    → length s ≡ 16
    → (round + left) * 16 ≤ length rk
    → length (cipher_rounds sub rk last left round s) ≡ 16
unfolding cipher_rounds
length-cipher_rounds sub rk last zero round s e h = e
length-cipher_rounds sub rk last (suc left) round s e h =
    length-cipher_rounds sub rk last left (round + 1) _
      (omega (
        arith,
        length-zip_xor mixed (take 16 (drop (round * 16) rk)),
        mixed_length (round == last),
        length-round_key rk (round * 16) (omega arith),
      ))
      (omega arith)
  where
    mixed : Bytes
    mixed =
        let shifted = shift_rows (map sub s) in
        if round == last then shifted else mix_columns shifted

    mixed_length :
        (b : Bool)
        → length
            (let shifted = shift_rows (map sub s) in if b then shifted else mix_columns shifted)
          ≡ 16
    mixed_length true = length-shift_rows (map sub s)
    mixed_length false =
        omega (arith, length-mix_columns (shift_rows (map sub s)), length-shift_rows (map sub s))

-- A cipher whose key and block have their sizes gives a block.
pub length-aes128 :
    (key block : Bytes)
    → length key ≡ 16
    → length block ≡ 16
    → length (aes128_encrypt_block (aes128_init key) block) ≡ 16
unfolding aes128_encrypt_block aes128_init
length-aes128 key block hk hb =
    let rk = expand128 40 16 0 (take 16 key) in
    let size = length-expand128 40 16 0 (take 16 key) in
    let size' = length-take 16 key in
    length-cipher_rounds _ rk 10 10 1 (zip_xor (take 16 block) (take 16 rk))
      (omega (
        arith,
        length-zip_xor (take 16 block) (take 16 rk),
        length-take 16 block,
        length-take 16 rk,
      ))
      (omega arith)

pub length-aes256 :
    (key block : Bytes)
    → length key ≡ 32
    → length block ≡ 16
    → length (aes256_encrypt_block (aes256_init key) block) ≡ 16
unfolding aes256_encrypt_block aes256_init
length-aes256 key block hk hb =
    let rk = expand256 52 32 0 (take 32 key) in
    let size = length-expand256 52 32 0 (take 32 key) in
    let size' = length-take 32 key in
    length-cipher_rounds _ rk 14 14 1 (zip_xor (take 16 block) (take 16 rk))
      (omega (
        arith,
        length-zip_xor (take 16 block) (take 16 rk),
        length-take 16 block,
        length-take 16 rk,
      ))
      (omega arith)

length-shift_right : (before : ℕ) (v : Bytes) → length (shift_right before v) ≡ length v
unfolding shift_right
length-shift_right before [] = refl
length-shift_right before (b ∷ v) = omega (arith, length-shift_right b v)

length-gf128_loop :
    (left i : ℕ) (x z v : Bytes)
    → length z ≡ 16
    → length v ≡ 16
    → length (gf128_loop left i x z v) ≡ 16
unfolding gf128_loop
length-gf128_loop zero i x z v hz hv = hz
length-gf128_loop (suc left) i x z v hz hv =
    let bit = get_or x (i / 8) 0 / 2 ^ (7 - i % 8) % 2 in
    let shifted = shift_right 0 v in
    let masked = map (λ b. bit_and b (bit * 255)) v in
    length-gf128_loop left (i + 1) x (zip_xor z masked) _
      (omega (arith, length-zip_xor z masked, length-map (λ b. bit_and b (bit * 255)) v))
      (omega (
        arith,
        length-set shifted 0 (bit_xor (get_or shifted 0 0) (0xe1 * (get_or v 15 0 % 2))),
        length-shift_right 0 v,
      ))

length-ghash_block : (h y block : Bytes) → length h ≡ 16 → length (ghash_block h y block) ≡ 16
unfolding ghash_block gf128_mul
length-ghash_block h y block hh =
    length-gf128_loop 128 0 (zip_xor y block) (replicate 16 0) h refl hh

pub length-ghash_lengths :
    (h y : Bytes) (a n : ℕ) → length h ≡ 16 → length (ghash_lengths h y a n) ≡ 16
unfolding ghash_lengths
length-ghash_lengths h y a n hh = length-ghash_block h y _ hh

-- The first counter block of every nonce is a block.
pub length-derive_j0 : (h nonce : Bytes) → length h ≡ 16 → length (derive_j0 h nonce) ≡ 16
unfolding derive_j0
length-derive_j0 h nonce hh = elim (Bool-cases (length nonce == 12)) [
  | inl e ↦ rw e (
      let size : length nonce ≡ 12 = ground arith in
      omega (arith, length-append nonce (0 ∷ 0 ∷ 0 ∷ 1 ∷ [])))
  | inr e ↦ rw e (length-ghash_lengths h _ 0 (length nonce) hh)
]
