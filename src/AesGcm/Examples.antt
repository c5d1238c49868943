-- ===== src/AesGcm/Examples.antt =====
-- Runs of src/aes_gcm.c at concrete inputs.
use thalovant_embedded_c.Base.{
  ℕ, zero, suc, ◌*◌, [], ◌∷◌, map, ◌≡◌, refl, ◌↔◌, Bytes, codes, length, replicate, ok, arith,
}
use thalovant_embedded_c.AesGcm.Gcm.{
  shift_right, gf128_loop, gf128_mul, ghash_block, ghash_whole, ghash_update, be64, ghash_lengths,
  derive_j0, inc_from, inc32, ctr_rounds, gcm_ctr, gcm_tag, gcm_setup, ct_compare, gcm_encrypt,
  aes_gcm_encrypt, aes_gcm_decrypt, aes256_gcm_encrypt, aes256_gcm_decrypt,
}
use thalovant_embedded_c.AesGcm.Cipher.{aes_sub-sbox}
use thalovant_embedded_c.AesGcm.Sealing.{
  ct_compare_iff, aes_gcm_opens_iff, aes256_gcm_opens_iff, aes_gcm_decrypt-encrypt,
}
use thalovant_embedded_c.AesGcm.{
  sbox_table, sbox, zip_xor, schedule128, next_word, expand128, aes128_init, xtime, shift_rows,
  mix_columns, cipher_rounds, aes128_encrypt_block, aes_mul_loop, aes_mul, aes_power, aes_sub,
  schedule256, expand256, aes256_init, aes256_encrypt_block,
}

abbrev counting : ℕ → Bytes
counting n = go n []
  where
    go : ℕ → Bytes → Bytes
    go zero acc = acc
    go (suc k) acc = go k (k ∷ acc)

-- The example vector of FIPS 197, appendix C.1.
fips_197 :
    aes128_encrypt_block (aes128_init (counting 16)) (map (λ i. i * 17) (counting 16))
    ≡ 0x69 ∷ 0xc4 ∷ 0xe0 ∷ 0xd8 ∷ 0x6a ∷ 0x7b ∷ 0x04 ∷ 0x30 ∷ 0xd8 ∷ 0xcd ∷ 0xb7 ∷ 0x80 ∷ 0x70
      ∷ 0xb4 ∷ 0xc5 ∷ 0x5a ∷ []
unfolding aes128_encrypt_block aes128_init expand128 schedule128 next_word cipher_rounds shift_rows
    mix_columns zip_xor sbox sbox_table
fips_197 = refl

-- The second test case of the GCM specification, and the fourteenth, which has the longer key.
abbrev zeros : ℕ → Bytes
zeros n = replicate n 0

abbrev sealed_text : Bytes
sealed_text =
    0x03 ∷ 0x88 ∷ 0xda ∷ 0xce ∷ 0x60 ∷ 0xb6 ∷ 0xa3 ∷ 0x92 ∷ 0xf3 ∷ 0x28 ∷ 0xc2 ∷ 0xb9 ∷ 0x71 ∷ 0xb2
    ∷ 0xfe ∷ 0x78 ∷ []

abbrev sealed_tag : Bytes
sealed_tag =
    0xab ∷ 0x6e ∷ 0x47 ∷ 0xd4 ∷ 0x2c ∷ 0xec ∷ 0x13 ∷ 0xbd ∷ 0xf5 ∷ 0x3a ∷ 0x67 ∷ 0xb2 ∷ 0x12 ∷ 0x57
    ∷ 0xbd ∷ 0xdf ∷ []

gcm_case_2 : aes_gcm_encrypt (zeros 16) (zeros 12) [] (zeros 16) ≡ ok (sealed_text, sealed_tag)
unfolding aes_gcm_encrypt gcm_encrypt gcm_setup gcm_tag gcm_ctr ctr_rounds inc32 inc_from derive_j0
    ghash_lengths be64 ghash_update ghash_whole ghash_block gf128_mul gf128_loop shift_right
    aes128_encrypt_block aes128_init expand128 schedule128 next_word cipher_rounds shift_rows
    mix_columns zip_xor sbox sbox_table xtime
gcm_case_2 = refl

abbrev sealed_text_256 : Bytes
sealed_text_256 =
    0xce ∷ 0xa7 ∷ 0x40 ∷ 0x3d ∷ 0x4d ∷ 0x60 ∷ 0x6b ∷ 0x6e ∷ 0x07 ∷ 0x4e ∷ 0xc5 ∷ 0xd3 ∷ 0xba ∷ 0xf3
    ∷ 0x9d ∷ 0x18 ∷ []

abbrev sealed_tag_256 : Bytes
sealed_tag_256 =
    0xd0 ∷ 0xd1 ∷ 0xc8 ∷ 0xa7 ∷ 0x99 ∷ 0x99 ∷ 0x6b ∷ 0xf0 ∷ 0x26 ∷ 0x5b ∷ 0x98 ∷ 0xb5 ∷ 0xd4 ∷ 0x8a
    ∷ 0xb9 ∷ 0x19 ∷ []

gcm_case_14 :
    aes256_gcm_encrypt (zeros 32) (zeros 12) [] (zeros 16) ≡ ok (sealed_text_256, sealed_tag_256)
unfolding aes256_gcm_encrypt gcm_encrypt gcm_setup gcm_tag gcm_ctr ctr_rounds inc32 inc_from
    derive_j0 ghash_lengths be64 ghash_update ghash_whole ghash_block gf128_mul gf128_loop
    shift_right aes256_encrypt_block aes256_init expand256 schedule256 next_word cipher_rounds
    shift_rows mix_columns zip_xor aes_sub aes_power aes_mul aes_mul_loop xtime
gcm_case_14 = refl

ct_compare_iff_example : (ct_compare sealed_tag sealed_tag ≡ 0) ↔ (sealed_tag ≡ sealed_tag)
ct_compare_iff_example = ct_compare_iff sealed_tag sealed_tag refl

aes_gcm_opens_iff_example :
    (aes_gcm_decrypt (zeros 16) (zeros 12) [] sealed_text sealed_tag ≡ ok (zeros 16))
    ↔ (aes_gcm_encrypt (zeros 16) (zeros 12) [] (zeros 16) ≡ ok (sealed_text, sealed_tag))
aes_gcm_opens_iff_example =
    aes_gcm_opens_iff (zeros 16) (zeros 12) [] (zeros 16) sealed_text sealed_tag refl refl

aes256_gcm_opens_iff_example :
    (aes256_gcm_decrypt (zeros 32) (zeros 12) [] sealed_text_256 sealed_tag_256 ≡ ok (zeros 16)) ↔ (
      aes256_gcm_encrypt (zeros 32) (zeros 12) [] (zeros 16) ≡ ok (sealed_text_256, sealed_tag_256))
aes256_gcm_opens_iff_example =
    aes256_gcm_opens_iff (zeros 32) (zeros 12) [] (zeros 16) sealed_text_256 sealed_tag_256 refl
      refl

aes_gcm_decrypt-encrypt_example :
    (ciphertext : Bytes) × (tag : Bytes) × (aes_gcm_encrypt
        (zeros 16)
        (zeros 12)
        (codes "id")
        (zeros 16)
      ≡ ok (ciphertext, tag))
    × (length ciphertext ≡ 16)
    × (length tag ≡ 16)
    × (aes_gcm_decrypt (zeros 16) (zeros 12) (codes "id") ciphertext tag ≡ ok (zeros 16))
aes_gcm_decrypt-encrypt_example =
    aes_gcm_decrypt-encrypt (zeros 16) (zeros 12) (codes "id") (zeros 16) refl (omega arith)

aes_sub-sbox_example : aes_sub 0x53 ≡ sbox 0x53
aes_sub-sbox_example = aes_sub-sbox 0x53 (omega arith)
