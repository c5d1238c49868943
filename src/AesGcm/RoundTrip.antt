-- ===== src/AesGcm/RoundTrip.antt =====
-- src/aes_gcm.c: counter mode undoes itself, and a sealed text is opened again.
use thalovant_embedded_c.Base.{
  ℕ, zero, suc, ◌+◌, ◌-◌, ◌*◌, ◌/◌, ◌%◌, ◌≤◌, min, [], ◌∷◌, ◌≡◌, refl, Bytes, length, length-append,
  length-take, length-drop, length-set, take, drop, take-append-drop, set, get_or, arith,
}
use thalovant_embedded_c.Base.{nil_of_length, cut_piece}
use thalovant_embedded_c.Base.Bits.{bit_xor_undo}
use thalovant_embedded_c.AesGcm.{zip_xor}
use thalovant_embedded_c.AesGcm.Lengths.{length-zip_xor}
use thalovant_embedded_c.AesGcm.Gcm.{inc_from, inc32, ctr_rounds, gcm_ctr}

zip_xor_undo : (xs ks : Bytes) → length xs ≤ length ks → zip_xor (zip_xor xs ks) ks ≡ xs
unfolding zip_xor
zip_xor_undo [] ks h = refl
zip_xor_undo (x ∷ xs) [] h = absurd (omega arith)
zip_xor_undo (x ∷ xs) (k ∷ ks) h = rw (bit_xor_undo x k, zip_xor_undo xs ks (omega arith))

length-inc_from : (left i : ℕ) (block : Bytes) → length (inc_from left i block) ≡ length block
unfolding inc_from
length-inc_from zero i block = refl
length-inc_from (suc left) i block =
    let v = (get_or block i 0 + 1) % 256 in
    ground (arith, length-set block i v, length-inc_from left (i - 1) (set block i v))

-- A cipher that maps blocks to blocks.
abbrev pub IsCipher : (Bytes → Bytes) → Type 0
IsCipher enc = (block : Bytes) → length block ≡ 16 → length (enc block) ≡ 16

module _ (enc : Bytes → Bytes) (cipher : IsCipher enc) where
  next_counter : (counter : Bytes) → length counter ≡ 16 → length (inc32 counter) ≡ 16
  unfolding inc32
  next_counter counter h = omega (arith, length-inc_from 4 15 counter)

  ctr_rounds_undo :
      (rounds : ℕ) (counter text : Bytes)
      → length counter ≡ 16
      → length text ≤ 16 * rounds
      → (length (ctr_rounds enc rounds counter text) ≡ length text)
        × (ctr_rounds enc rounds counter (ctr_rounds enc rounds counter text) ≡ text)
  unfolding ctr_rounds
  ctr_rounds_undo zero counter [] hc h = (refl, refl)
  ctr_rounds_undo zero counter (c ∷ text) hc h = absurd (omega arith)
  ctr_rounds_undo (suc rounds) counter text hc h =
      let counter' = inc32 counter in
      let hc' = next_counter counter hc in
      let ks = enc counter' in
      let size = cipher counter' hc' in
      let head = zip_xor (take 16 text) ks in
      let rest = ctr_rounds enc rounds counter' (drop 16 text) in
      let head_size : length head ≡ min (length (take 16 text)) 16 =
        omega (arith, length-zip_xor (take 16 text) ks) in
      let taken = length-take 16 text in
      let dropped = length-drop 16 text in
      let (rest_size, rest_back) =
        ctr_rounds_undo rounds counter' (drop 16 text) hc' (omega arith) in
      let (front, back) =
        cut_piece 16 head rest (omega arith) (λ short. nil_of_length rest (omega arith)) in
      (
        omega (arith, length-append head rest),
        rw (front, back)
            (rw (zip_xor_undo (take 16 text) ks (omega arith), rest_back)
              (take-append-drop 16 text)),
      )

  -- Counter mode keeps the length, and undoes itself.
  pub gcm_ctr_undo :
      (counter text : Bytes)
      → length counter ≡ 16
      → (length (gcm_ctr enc counter text) ≡ length text)
        × (gcm_ctr enc counter (gcm_ctr enc counter text) ≡ text)
  unfolding gcm_ctr
  gcm_ctr_undo counter text hc =
      let (size, back) = ctr_rounds_undo ((length text + 15) / 16) counter text hc (omega arith) in
      (size, rw size back)
