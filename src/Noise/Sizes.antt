-- ===== src/Noise/Sizes.antt =====
-- src/noise.c: the outputs of the key derivation have 32 bytes, as the buffers they are kept in.
use thalovant_embedded_c.Base.{
  ℕ, zero, suc, ◌+◌, ◌<◌, Bool, true, false, [], ◌≡◌, refl, ◌∙◌, Bytes, length, get_or, arith,
}
use thalovant_embedded_c.Sha256.{sha256_init, sha256_update}
use thalovant_embedded_c.Sha256.Lengths.{
  words-sha256_update, length-sha256_final, words-sha256_init,
}
use thalovant_embedded_c.AesGcm.Gcm.{be64}
use thalovant_embedded_c.Noise.{Symmetric, digest_pair, hmac, hkdf_loop, hkdf, mix_key, nonce_bytes}

pub length-digest_pair : (a b : Bytes) → length (digest_pair a b) ≡ 32
unfolding digest_pair
length-digest_pair a b =
    let first = sha256_update sha256_init a in
    length-sha256_final (sha256_update first b)
      (words-sha256_update first b ∙ words-sha256_update sha256_init a ∙ words-sha256_init)

length-hmac : (key input : Bytes) → length (hmac key input) ≡ 32
unfolding hmac
length-hmac key input = length-digest_pair _ _

length-hkdf_loop :
    (left i : ℕ) (temp previous : Bytes) (j : ℕ)
    → j < left
    → length (get_or (hkdf_loop left i temp previous) j []) ≡ 32
unfolding hkdf_loop
length-hkdf_loop zero i temp previous j h = absurd (omega arith)
length-hkdf_loop (suc left) i temp previous zero h = length-hmac temp _
length-hkdf_loop (suc left) i temp previous (suc j) h =
    length-hkdf_loop left (i + 1) temp _ j (omega arith)

pub length-hkdf :
    (ck input : Bytes) (count j : ℕ) → j < count → length (get_or (hkdf ck input count) j []) ≡ 32
unfolding hkdf
length-hkdf ck input count j h = length-hkdf_loop count 0 (hmac ck input) [] j h

-- A key is one of 32 bytes where there is one.
abbrev pub IsKeyed : Symmetric → Type 0
IsKeyed s = s.has_key ≡ true → length s.key ≡ 32

pub mix_key-IsKeyed :
    (s : Symmetric) (input : Bytes) (and_hash : Bool) → length (mix_key s input and_hash).key ≡ 32
unfolding mix_key
mix_key-IsKeyed s input true = length-hkdf s.ck input 3 2 (omega arith)
mix_key-IsKeyed s input false = length-hkdf s.ck input 2 1 (omega arith)

pub length-nonce_bytes : (n : ℕ) → length (nonce_bytes n) ≡ 12
unfolding nonce_bytes be64
length-nonce_bytes n = refl
