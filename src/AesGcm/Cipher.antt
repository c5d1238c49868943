-- ===== src/AesGcm/Cipher.antt =====
-- src/aes_gcm.c, lines 95 to 113: the S-box that AES-256 computes, and the table of AES-128.
use thalovant_embedded_c.Base.{ℕ, ◌<◌, true, ◌≡◌, refl, ◌==◌, ==_iff, all_below, all_below→eq}
use thalovant_embedded_c.AesGcm.{aes_sub, sbox, aes_power, aes_mul, aes_mul_loop, sbox_table, xtime}

same_sbox : all_below 256 (λ x. aes_sub x == sbox x) ≡ true
unfolding all_below aes_sub sbox sbox_table aes_power aes_mul aes_mul_loop xtime
same_sbox = refl

-- For every byte the S-box that AES-256 computes, an inverse in GF(2^8) followed by the affine map,
-- is the entry of the table that AES-128 reads.
pub aes_sub-sbox : (x : ℕ) → x < 256 → aes_sub x ≡ sbox x
aes_sub-sbox x h = (==_iff _ _).0 (all_below→eq 256 (λ y. aes_sub y == sbox y) same_sbox x h)
