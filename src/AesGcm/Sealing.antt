-- ===== src/AesGcm/Sealing.antt =====
-- src/aes_gcm.c: a text is opened exactly where it was sealed under the same key, nonce and data.
use thalovant_embedded_c.Base.{
  ℕ, ◌<◌, false, not, [], ◌∷◌, ◌≡◌, refl, sym, ap, subst, ◌∙◌, inl, inr, ◌↔◌, bit_or, bit_xor,
  Bytes, length, take, take_all, replicate, ◌==◌, ok, invalid, auth, ◌>>=◌, ◌>>◌, fail_if, arith,
  Bool-cases,
}
use thalovant_embedded_c.Base.Bits.{bit_or_zero, bit_xor_zero, bit_xor_self}
use thalovant_embedded_c.AesGcm.{zip_xor}
use thalovant_embedded_c.AesGcm.Lengths.{
  length-zip_xor, length-aes128, length-aes256, length-ghash_lengths, length-derive_j0,
}
use thalovant_embedded_c.AesGcm.RoundTrip.{IsCipher, gcm_ctr_undo}
use thalovant_embedded_c.AesGcm.Gcm.{
  derive_j0, gcm_ctr, gcm_tag, gcm_setup, ct_diff, ghash_lengths, ct_compare, gcm_encrypt,
  gcm_decrypt, aes128, aes256, aes_gcm_encrypt, aes_gcm_decrypt, aes256_gcm_encrypt,
  aes256_gcm_decrypt,
}

ct_diff_self : (a : Bytes) → ct_diff 0 a a ≡ 0
unfolding ct_diff
ct_diff_self [] = refl
ct_diff_self (x ∷ a) = rw (bit_xor_self x) (ct_diff_self a)

ct_diff_zero :
    (diff : ℕ) (a b : Bytes) → length a ≡ length b → ct_diff diff a b ≡ 0 → (diff ≡ 0) × (a ≡ b)
unfolding ct_diff
ct_diff_zero diff [] [] e h = (h, refl)
ct_diff_zero diff [] (y ∷ b) e h = absurd (omega arith)
ct_diff_zero diff (x ∷ a) [] e h = absurd (omega arith)
ct_diff_zero diff (x ∷ a) (y ∷ b) e h =
    let (d, same) = ct_diff_zero (bit_or diff (bit_xor x y)) a b (omega arith) h in
    let (d0, x0) = bit_or_zero diff (bit_xor x y) d in (d0, cc (bit_xor_zero x y x0, same))

-- The constant-time comparison says 0 exactly at equal arrays of one length.
pub ct_compare_iff : (a b : Bytes) → length a ≡ length b → (ct_compare a b ≡ 0) ↔ (a ≡ b)
unfolding ct_compare
ct_compare_iff a b e =
    (λ h. (ct_diff_zero 0 a b e (ground arith)).1, λ h. rw h (rw (ct_diff_self b)))

module _ (enc : Bytes → Bytes) (cipher : IsCipher enc) where
  abbrev hash_key : Bytes
  hash_key = enc (replicate 16 0)

  abbrev first_block : Bytes → Bytes
  first_block nonce = derive_j0 hash_key nonce

  hash_key_size : length hash_key ≡ 16
  hash_key_size = cipher (replicate 16 0) refl

  first_block_size : (nonce : Bytes) → length (first_block nonce) ≡ 16
  first_block_size nonce = length-derive_j0 hash_key nonce hash_key_size

  gcm_tag_size :
      (nonce aad c : Bytes) → length (gcm_tag enc hash_key (first_block nonce) aad c) ≡ 16
  unfolding gcm_tag
  gcm_tag_size nonce aad c =
      length-sealed (ghash_lengths hash_key _ (length aad) (length c))
        (length-ghash_lengths hash_key _ (length aad) (length c) hash_key_size)
    where
      length-sealed :
          (s : Bytes) → length s ≡ 16 → length (zip_xor s (enc (first_block nonce))) ≡ 16
      length-sealed s h = omega (
        arith,
        length-zip_xor s (enc (first_block nonce)),
        cipher (first_block nonce) (first_block_size nonce),
      )

  gcm_encrypt-eq :
      (nonce aad p : Bytes)
      → 0 < length nonce
      → gcm_encrypt enc nonce aad p
        ≡ ok (
          gcm_ctr enc (first_block nonce) p,
          gcm_tag enc hash_key (first_block nonce) aad (gcm_ctr enc (first_block nonce) p),
        )
  unfolding gcm_encrypt gcm_setup
  gcm_encrypt-eq nonce aad p h = ground arith

  gcm_decrypt-eq :
      (nonce aad c tag : Bytes)
      → 0 < length nonce
      → ct_compare (gcm_tag enc hash_key (first_block nonce) aad c) (take 16 tag) ≡ 0
      → gcm_decrypt enc nonce aad c tag ≡ ok (gcm_ctr enc (first_block nonce) c)
  unfolding gcm_decrypt gcm_setup
  gcm_decrypt-eq nonce aad c tag h same =
      let given : (length nonce == 0) ≡ false = ground arith in
      subst
        (λ b.
          (fail_if b invalid >> ok (hash_key, first_block nonce) >>= (λ (h', j0).
            fail_if (not (ct_compare (gcm_tag enc h' j0 aad c) (take 16 tag) == 0)) auth
            >> ok (gcm_ctr enc j0 c)))
          ≡ ok (gcm_ctr enc (first_block nonce) c))
        (sym given) (rw same refl)

  nonce_of_encrypt :
      (nonce aad p : Bytes) (r : Bytes × Bytes)
      → gcm_encrypt enc nonce aad p ≡ ok r
      → 0 < length nonce
  unfolding gcm_encrypt gcm_setup
  nonce_of_encrypt nonce aad p r h = ground arith

  checked_ok :
      (nonce aad c tag p : Bytes)
      → gcm_decrypt enc nonce aad c tag ≡ ok p
      → (0 < length nonce)
        × (ct_compare (gcm_tag enc hash_key (first_block nonce) aad c) (take 16 tag) ≡ 0)
        × (p ≡ gcm_ctr enc (first_block nonce) c)
  unfolding gcm_decrypt gcm_setup
  checked_ok nonce aad c tag p h = elim (Bool-cases (length nonce == 0)) [
    | inl e ↦ absurd (let g = rw e at h in cc)
    | inr e ↦
        elim (Bool-cases
          (ct_compare (gcm_tag enc hash_key (first_block nonce) aad c) (take 16 tag) == 0)) [
            | inl t ↦ (ground arith, ground arith, let g = rw (e, t) at h in cc)
            | inr t ↦ absurd (let g = rw (e, t) at h in cc)
          ]
  ]

  gcm_decrypt_inv :
      (nonce aad c tag p : Bytes)
      → length tag ≡ 16
      → gcm_decrypt enc nonce aad c tag ≡ ok p
      → (0 < length nonce)
        × (tag ≡ gcm_tag enc hash_key (first_block nonce) aad c)
        × (p ≡ gcm_ctr enc (first_block nonce) c)
  gcm_decrypt_inv nonce aad c tag p size h =
      let mine = gcm_tag enc hash_key (first_block nonce) aad c in
      let (given, same, text) = checked_ok nonce aad c tag p h in
      let whole = take_all 16 tag (omega arith) in
      let same' : ct_compare mine tag ≡ 0 = subst (λ t. ct_compare mine t ≡ 0) whole same in
      let found = (ct_compare_iff mine tag (omega (arith, gcm_tag_size nonce aad c))).0 in
      (given, sym (found same'), text)

  -- A text is opened exactly where sealing what it opens to gives the ciphertext and the tag.
  pub gcm_opens_iff :
      (nonce aad p c tag : Bytes)
      → length tag ≡ 16
      → (gcm_decrypt enc nonce aad c tag ≡ ok p) ↔ (gcm_encrypt enc nonce aad p ≡ ok (c, tag))
  gcm_opens_iff nonce aad p c tag size = (opened, sealed)
    where
      undo : (t : Bytes) → gcm_ctr enc (first_block nonce) (gcm_ctr enc (first_block nonce) t) ≡ t
      undo t = (gcm_ctr_undo enc cipher (first_block nonce) t (first_block_size nonce)).1

      opened : gcm_decrypt enc nonce aad c tag ≡ ok p → gcm_encrypt enc nonce aad p ≡ ok (c, tag)
      opened h =
          let (some_nonce, t, e) = gcm_decrypt_inv nonce aad c tag p size h in
          rw (e, t)
            (rw (gcm_encrypt-eq nonce aad (gcm_ctr enc (first_block nonce) c) some_nonce, undo c)
              refl)

      sealed : gcm_encrypt enc nonce aad p ≡ ok (c, tag) → gcm_decrypt enc nonce aad c tag ≡ ok p
      sealed h =
          let given = nonce_of_encrypt nonce aad p (c, tag) h in
          let e = rw (gcm_encrypt-eq nonce aad p given) at h in
          let c_eq : gcm_ctr enc (first_block nonce) p ≡ c = cc in
          let t : gcm_tag enc hash_key (first_block nonce) aad c ≡ tag = cc in
          let back : gcm_ctr enc (first_block nonce) c ≡ p = rw (sym c_eq) (undo p) in
          let whole = take_all 16 tag (omega arith) in
          let same = (ct_compare_iff _ tag (rw t refl)).1 t in
          let made = gcm_decrypt-eq nonce aad c tag given (rw whole same) in made ∙ ap ok back

  -- Sealing under a nonce that is not empty succeeds, and keeps the length of the text.
  gcm_seals :
      (nonce aad p : Bytes)
      → 0 < length nonce
      → (c : Bytes) × (tag : Bytes) × (gcm_encrypt enc nonce aad p ≡ ok (c, tag))
        × (length c ≡ length p)
        × (length tag ≡ 16)
  gcm_seals nonce aad p given =
      let c = gcm_ctr enc (first_block nonce) p in
      (
        c,
        gcm_tag enc hash_key (first_block nonce) aad c,
        gcm_encrypt-eq nonce aad p given,
        (gcm_ctr_undo enc cipher (first_block nonce) p (first_block_size nonce)).0,
        gcm_tag_size nonce aad c,
      )

-- AES-128-GCM with a key of 16 bytes and a tag of 16 bytes: `aes_gcm_decrypt` gives a text exactly
-- where `aes_gcm_encrypt` of that text, under the same key, nonce and data, gives the same
-- ciphertext and the same tag.
pub aes_gcm_opens_iff :
    (key nonce aad plaintext ciphertext tag : Bytes)
    → length key ≡ 16
    → length tag ≡ 16
    → (aes_gcm_decrypt key nonce aad ciphertext tag ≡ ok plaintext)
      ↔ (aes_gcm_encrypt key nonce aad plaintext ≡ ok (ciphertext, tag))
unfolding aes_gcm_decrypt aes_gcm_encrypt
aes_gcm_opens_iff key nonce aad plaintext ciphertext tag k =
    gcm_opens_iff (aes128 key) (λ block. length-aes128 key block k) nonce aad plaintext ciphertext
      tag

-- AES-256-GCM with a key of 32 bytes and a tag of 16 bytes: `aes256_gcm_decrypt` gives a text
-- exactly where `aes256_gcm_encrypt` of that text, under the same key, nonce and data, gives the
-- same ciphertext and the same tag.
pub aes256_gcm_opens_iff :
    (key nonce aad plaintext ciphertext tag : Bytes)
    → length key ≡ 32
    → length tag ≡ 16
    → (aes256_gcm_decrypt key nonce aad ciphertext tag ≡ ok plaintext)
      ↔ (aes256_gcm_encrypt key nonce aad plaintext ≡ ok (ciphertext, tag))
unfolding aes256_gcm_decrypt aes256_gcm_encrypt
aes256_gcm_opens_iff key nonce aad plaintext ciphertext tag k =
    gcm_opens_iff (aes256 key) (λ block. length-aes256 key block k) nonce aad plaintext ciphertext
      tag

-- AES-128-GCM with a key of 16 bytes and a nonce that is not empty: sealing succeeds, its
-- ciphertext has the length of the plaintext, its tag has 16 bytes, and opening gives the plaintext.
pub aes_gcm_decrypt-encrypt :
    (key nonce aad plaintext : Bytes)
    → length key ≡ 16
    → 0 < length nonce
    → (ciphertext : Bytes) × (tag : Bytes) × (aes_gcm_encrypt key nonce aad plaintext
        ≡ ok (ciphertext, tag))
      × (length ciphertext ≡ length plaintext)
      × (length tag ≡ 16)
      × (aes_gcm_decrypt key nonce aad ciphertext tag ≡ ok plaintext)
unfolding aes_gcm_encrypt
aes_gcm_decrypt-encrypt key nonce aad plaintext k given =
    let cipher : IsCipher (aes128 key) = λ block. length-aes128 key block k in
    let (c, tag, sealed, same, size) = gcm_seals (aes128 key) cipher nonce aad plaintext given in
    (c, tag, sealed, same, size, (aes_gcm_opens_iff key nonce aad plaintext c tag k size).1 sealed)

pub aes256_gcm_seals :
    (key nonce aad plaintext : Bytes)
    → length key ≡ 32
    → 0 < length nonce
    → (c : Bytes) × (tag : Bytes) × (aes256_gcm_encrypt key nonce aad plaintext ≡ ok (c, tag))
      × (length c ≡ length plaintext)
      × (length tag ≡ 16)
unfolding aes256_gcm_encrypt
aes256_gcm_seals key nonce aad plaintext k given =
    gcm_seals (aes256 key) (λ block. length-aes256 key block k) nonce aad plaintext given
