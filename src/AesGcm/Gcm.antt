-- ===== src/AesGcm/Gcm.antt =====
-- src/aes_gcm.c, lines 171 to 495: GHASH, counter mode and the two sealing functions. The source
-- has the counter and tag loops twice, for the two ciphers; here they take the cipher as `enc`.
use thalovant_embedded_c.Base.{
  ℕ, zero, suc, ◌+◌, ◌-◌, ◌*◌, ◌/◌, ◌%◌, ◌^◌, Bool, true, not, Option, some, [], ◌∷◌, ◌++◌, map,
  bit_and, bit_or, bit_xor, Bytes, length, take, drop, replicate, set, get_or, ltb, ◌==◌,
  if◌then◌else◌, Result, ok, err, invalid, missing, auth, ◌>>=◌, ◌>>◌, fail_if, trim_start,
  trim_end, is_space,
}
use thalovant_embedded_c.AesGcm.{
  zip_xor, aes128_init, aes128_encrypt_block, aes256_init, aes256_encrypt_block,
}

-- v[j] = (v[j] >> 1) | (v[j - 1] << 7), with the byte before the first one given.
unfoldable pub shift_right : ℕ → Bytes → Bytes
shift_right before [] = []
shift_right before (v ∷ vs) = bit_or (v / 2) (before * 2 ^ 7 % 256) ∷ shift_right v vs

abbrev masked : ℕ → Bytes → Bytes
masked bit v = map (λ b. bit_and b (bit * 255)) v

-- The bits of `x` from bit `i` on, by the bits left.
unfoldable pub gf128_loop : ℕ → ℕ → Bytes → Bytes → Bytes → Bytes
gf128_loop zero i x z v = z
gf128_loop (suc left) i x z v =
    let bit = get_or x (i / 8) 0 / 2 ^ (7 - i % 8) % 2 in
    let lsb = get_or v 15 0 % 2 in
    let shifted = shift_right 0 v in
    gf128_loop left (i + 1) x (zip_xor z (masked bit v))
      (set shifted 0 (bit_xor (get_or shifted 0 0) (0xe1 * lsb)))

unfoldable pub gf128_mul : Bytes → Bytes → Bytes
gf128_mul x y = gf128_loop 128 0 x (replicate 16 0) y

-- tlv_ghash is the key `h` with the sum `y`.
unfoldable pub ghash_block : Bytes → Bytes → Bytes → Bytes
ghash_block h y block = gf128_mul (zip_xor y block) h

unfoldable pub ghash_whole : ℕ → Bytes → Bytes → Bytes → Bytes
ghash_whole zero h y text = y
ghash_whole (suc blocks) h y text =
    ghash_whole blocks h (ghash_block h y (take 16 text)) (drop 16 text)

-- The whole blocks, and the last one filled up with zeros.
unfoldable pub ghash_update : Bytes → Bytes → Bytes → Bytes
ghash_update h y text =
    let blocks = length text / 16 in
    let y' = ghash_whole blocks h y text in
    let rest = drop (16 * blocks) text in
    if length rest == 0 then y' else ghash_block h y' (rest ++ replicate (16 - length rest) 0)

-- The eight bytes of a uint64_t, the highest first.
unfoldable pub be64 : ℕ → Bytes
be64 n =
    n / 2 ^ 56 % 256
    ∷ n / 2 ^ 48 % 256
    ∷ n / 2 ^ 40 % 256
    ∷ n / 2 ^ 32 % 256
    ∷ n / 2 ^ 24 % 256
    ∷ n / 2 ^ 16 % 256
    ∷ n / 2 ^ 8 % 256
    ∷ n % 256
    ∷ []

unfoldable pub ghash_lengths : Bytes → Bytes → ℕ → ℕ → Bytes
ghash_lengths h y aad_len data_len =
    ghash_block h y (be64 (aad_len * 8 % 2 ^ 64) ++ be64 (data_len * 8 % 2 ^ 64))

unfoldable pub derive_j0 : Bytes → Bytes → Bytes
derive_j0 h nonce =
    if length nonce == 12
    then nonce ++ 0 ∷ 0 ∷ 0 ∷ 1 ∷ []
    else ghash_lengths h (ghash_update h (replicate 16 0) nonce) 0 (length nonce)

-- for (i = 15; i >= 12; i--) if (++block[i] != 0) break; by the bytes left.
unfoldable pub inc_from : ℕ → ℕ → Bytes → Bytes
inc_from zero i block = block
inc_from (suc left) i block =
    let v = (get_or block i 0 + 1) % 256 in
    let carried = inc_from left (i - 1) (set block i v) in if v == 0 then carried else set block i v

unfoldable pub inc32 : Bytes → Bytes
inc32 block = inc_from 4 15 block

-- One round for each sixteen bytes begun.
unfoldable pub ctr_rounds : (Bytes → Bytes) → ℕ → Bytes → Bytes → Bytes
ctr_rounds enc zero counter text = []
ctr_rounds enc (suc rounds) counter text =
    let counter' = inc32 counter in
    zip_xor (take 16 text) (enc counter') ++ ctr_rounds enc rounds counter' (drop 16 text)

unfoldable pub gcm_ctr : (Bytes → Bytes) → Bytes → Bytes → Bytes
gcm_ctr enc counter text = ctr_rounds enc ((length text + 15) / 16) counter text

unfoldable pub gcm_tag : (Bytes → Bytes) → Bytes → Bytes → Bytes → Bytes → Bytes
gcm_tag enc h j0 aad ciphertext =
    let y1 = if ltb 0 (length aad) then ghash_update h (replicate 16 0) aad else replicate 16 0 in
    let y2 = if ltb 0 (length ciphertext) then ghash_update h y1 ciphertext else y1 in
    zip_xor (ghash_lengths h y2 (length aad) (length ciphertext)) (enc j0)

-- The hash key and the first counter block.
unfoldable pub gcm_setup : (Bytes → Bytes) → Bytes → Result (Bytes × Bytes)
gcm_setup enc nonce =
    let h = enc (replicate 16 0) in fail_if (length nonce == 0) invalid >> ok (h, derive_j0 h nonce)

-- The loop of `thalovant_ct_compare`.
unfoldable pub ct_diff : ℕ → Bytes → Bytes → ℕ
ct_diff diff [] b = diff
ct_diff diff (x ∷ a) [] = diff
ct_diff diff (x ∷ a) (y ∷ b) = ct_diff (bit_or diff (bit_xor x y)) a b

unfoldable pub ct_compare : Bytes → Bytes → ℕ
ct_compare a b = if ct_diff 0 a b == 0 then 0 else 1

-- The bodies of the sealing functions behind the checks of their pointers; the result of sealing is
-- the ciphertext and the tag.
unfoldable pub gcm_encrypt : (Bytes → Bytes) → Bytes → Bytes → Bytes → Result (Bytes × Bytes)
gcm_encrypt enc nonce aad plaintext = do
  (h, j0) ← gcm_setup enc nonce
  let ciphertext = gcm_ctr enc j0 plaintext
  ok (ciphertext, gcm_tag enc h j0 aad ciphertext)

unfoldable pub gcm_decrypt : (Bytes → Bytes) → Bytes → Bytes → Bytes → Bytes → Result Bytes
gcm_decrypt enc nonce aad ciphertext tag = do
  (h, j0) ← gcm_setup enc nonce
  fail_if (not (ct_compare (gcm_tag enc h j0 aad ciphertext) (take 16 tag) == 0)) auth
  ok (gcm_ctr enc j0 ciphertext)

abbrev pub aes128 : Bytes → Bytes → Bytes
aes128 key = aes128_encrypt_block (aes128_init key)

abbrev pub aes256 : Bytes → Bytes → Bytes
aes256 key = aes256_encrypt_block (aes256_init key)

unfoldable pub aes_gcm_encrypt : Bytes → Bytes → Bytes → Bytes → Result (Bytes × Bytes)
aes_gcm_encrypt key nonce aad plaintext = gcm_encrypt (aes128 key) nonce aad plaintext

unfoldable pub aes_gcm_decrypt : Bytes → Bytes → Bytes → Bytes → Bytes → Result Bytes
aes_gcm_decrypt key nonce aad ciphertext tag = gcm_decrypt (aes128 key) nonce aad ciphertext tag

unfoldable pub aes256_gcm_encrypt : Bytes → Bytes → Bytes → Bytes → Result (Bytes × Bytes)
aes256_gcm_encrypt key nonce aad plaintext = gcm_encrypt (aes256 key) nonce aad plaintext

unfoldable pub aes256_gcm_decrypt : Bytes → Bytes → Bytes → Bytes → Bytes → Result Bytes
aes256_gcm_decrypt key nonce aad ciphertext tag = gcm_decrypt (aes256 key) nonce aad ciphertext tag

-- thalovant_crypto_runtime_key: the first sixteen bytes of the trimmed key.
unfoldable pub crypto_runtime_key : Option Bytes → Bool → Result Bytes
crypto_runtime_key (some crypto_key) true = do
  let trimmed = trim_end is_space (trim_start is_space crypto_key)
  fail_if (length trimmed == 0) missing
  fail_if (ltb (length trimmed) 16) invalid
  ok (take 16 trimmed)
crypto_runtime_key _ _ = err missing
