-- ===== src/Noise/Sealing.antt =====
-- src/noise.c, seal and unseal: what one side opens is what the other sealed.
use thalovant_embedded_c.Base.{
  ℕ, ◌+◌, ◌-◌, ◌≤◌, false, ◌||◌, ◌++◌, ◌≡◌, refl, sym, ◌∙◌, ◌≢◌, ◌↔◌, Bytes, length, length-append,
  length-drop, take, drop, take-append, drop-append, take-append-drop, ltb, ◌==◌, ok, auth, arith,
  >>=-eq-ok, fail_if-eq-ok, ok_pair,
}
use thalovant_embedded_c.AesGcm.Gcm.{aes256_gcm_encrypt, aes256_gcm_decrypt}
use thalovant_embedded_c.AesGcm.Sealing.{aes256_gcm_opens_iff, aes256_gcm_seals}
use thalovant_embedded_c.Noise.{uint64_max, nonce_bytes, seal, unseal}
use thalovant_embedded_c.Noise.Sizes.{length-nonce_bytes}

-- A seal is made below the last counter, and moves on to the next.
pub seal_counter :
    (key : Bytes) (counter : ℕ) (ad plaintext : Bytes) (next : ℕ) (out : Bytes)
    → seal key counter ad plaintext ≡ ok (next, out)
    → (counter ≢ uint64_max) × (next ≡ counter + 1)
unfolding seal
seal_counter key counter ad plaintext next out h =
    let (early, rest) = fail_if-eq-ok (counter == uint64_max) auth _ h in
    let (pair, made, last) =
      >>=-eq-ok (aes256_gcm_encrypt key (nonce_bytes counter) ad plaintext) _ rest in
    (ground arith, cc)

-- What it gives is the cipher's text and tag, under the nonce of the counter.
pub seal_made :
    (key : Bytes) (counter : ℕ) (ad plaintext : Bytes) (next : ℕ) (out : Bytes)
    → seal key counter ad plaintext ≡ ok (next, out)
    → (made : Bytes × Bytes) × (aes256_gcm_encrypt key (nonce_bytes counter) ad plaintext ≡ ok made)
      × (out ≡ made.0 ++ made.1)
unfolding seal
seal_made key counter ad plaintext next out h =
    let (early, rest) = fail_if-eq-ok (counter == uint64_max) auth _ h in
    let (pair, made, last) =
      >>=-eq-ok (aes256_gcm_encrypt key (nonce_bytes counter) ad plaintext) _ rest in
    (pair, made, sym (ok_pair last).1)

module _ (key : Bytes) (counter : ℕ) (ad plaintext : Bytes) (k : length key ≡ 32) where
  -- Below the last counter a seal succeeds: a ciphertext of the length of the text, and its tag.
  seal_parts :
      counter ≢ uint64_max
      → (c : Bytes) × (tag : Bytes) × (aes256_gcm_encrypt key (nonce_bytes counter) ad plaintext
          ≡ ok (c, tag))
        × (seal key counter ad plaintext ≡ ok (counter + 1, c ++ tag))
        × (length c ≡ length plaintext)
        × (length tag ≡ 16)
  unfolding seal
  seal_parts below =
      let (c, tag, sealed, same, size) =
        aes256_gcm_seals key (nonce_bytes counter) ad plaintext k
          (omega (arith, length-nonce_bytes counter)) in
      let early : (counter == uint64_max) ≡ false = ground arith in
      (c, tag, sealed, rw (early, sealed) refl, same, size)

  pub seal_ok :
      counter ≢ uint64_max
      → (out : Bytes) × (seal key counter ad plaintext ≡ ok (counter + 1, out))
        × (length out ≡ length plaintext + 16)
  seal_ok below =
      let (c, tag, sealed, made, same, size) = seal_parts below in
      (c ++ tag, made, omega (arith, length-append c tag))

  pub seal_inv :
      (next : ℕ) (out : Bytes)
      → seal key counter ad plaintext ≡ ok (next, out)
      → (counter ≢ uint64_max) × (next ≡ counter + 1) × (length out ≡ length plaintext + 16)
  unfolding seal
  seal_inv next out h =
      let (early, rest) = fail_if-eq-ok (counter == uint64_max) auth _ h in
      let below : counter ≢ uint64_max = ground arith in
      let (out', made, size) = seal_ok below in
      let both = sym made ∙ h in let same : out' ≡ out = cc in (below, cc, rw (sym same) size)

-- Opening gives a text exactly where sealing the text gives the bytes that were opened.
pub unseal_iff_seal :
    (key : Bytes) (counter : ℕ) (ad plaintext sealed : Bytes) (next : ℕ)
    → length key ≡ 32
    → (unseal key counter ad sealed ≡ ok (next, plaintext))
      ↔ (seal key counter ad plaintext ≡ ok (next, sealed))
unfolding unseal seal
unseal_iff_seal key counter ad plaintext sealed next k = (opened, made)
  where
    nonce : Bytes
    nonce = nonce_bytes counter

    n : ℕ
    n = length sealed - 16

    opens_iff :
        (text c tag : Bytes)
        → length tag ≡ 16
        → (aes256_gcm_decrypt key nonce ad c tag ≡ ok text)
          ↔ (aes256_gcm_encrypt key nonce ad text ≡ ok (c, tag))
    opens_iff text c tag = aes256_gcm_opens_iff key nonce ad text c tag k

    opened :
        unseal key counter ad sealed ≡ ok (next, plaintext)
        → seal key counter ad plaintext ≡ ok (next, sealed)
    opened h =
        let (early, rest) =
          fail_if-eq-ok (ltb (length sealed) 16 || counter == uint64_max) auth _ h in
        let (text, done, last) =
          >>=-eq-ok (aes256_gcm_decrypt key nonce ad (take n sealed) (drop n sealed)) _ rest in
        let long : 16 ≤ length sealed = ground arith in
        let size : length (drop n sealed) ≡ 16 = omega (arith, length-drop n sealed) in
        let was = (opens_iff text (take n sealed) (drop n sealed) size).0 done in
        let open_counter : (counter == uint64_max) ≡ false = ground arith in
        let same : text ≡ plaintext = cc in
        let following : counter + 1 ≡ next = cc in
        rw (open_counter, sym same, was, take-append-drop n sealed, following) refl

    made :
        seal key counter ad plaintext ≡ ok (next, sealed)
        → unseal key counter ad sealed ≡ ok (next, plaintext)
    made h =
        let (below, following, whole) = seal_inv key counter ad plaintext k next sealed h in
        let (c, tag, done, parts, same, size) = seal_parts key counter ad plaintext k below in
        let both = sym parts ∙ h in
        let joined : sealed ≡ c ++ tag = cc in
        let early : (ltb (length sealed) 16 || counter == uint64_max) ≡ false = ground arith in
        let n_eq : n ≡ length c = omega arith in
        let head : take n sealed ≡ c = rw (n_eq, joined) (take-append c tag) in
        let tail : drop n sealed ≡ tag = rw (n_eq, joined) (drop-append c tag) in
        let was = (opens_iff plaintext c tag size).1 done in
        rw (early, head, tail, was, following) refl
