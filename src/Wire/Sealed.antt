-- ===== src/Wire/Sealed.antt =====
-- src/wire.c, lines 386 to 435: the binary envelope.
use thalovant_embedded_c.Base.{
  ℕ, ◌+◌, ◌-◌, ◌≤◌, ◌<◌, false, [], ◌++◌, ◌≡◌, refl, sym, Bytes, length, length-append, take, drop,
  take-append, drop-append, ltb, leb, ok, arith,
}
use thalovant_embedded_c.AesGcm.Sealing.{aes_gcm_decrypt-encrypt}
use thalovant_embedded_c.Wire.Envelope.{envelope_encrypt_binary, envelope_decrypt_binary}

-- With a key and a nonce of 16 bytes, a plaintext that is not empty and room for it and 32 bytes
-- more: the envelope is written, with 32 bytes more than the plaintext, and opening it gives the
-- plaintext, in every buffer that holds it.
pub envelope_decrypt_binary-encrypt :
    (key nonce plaintext : Bytes) (room room_out : ℕ)
    → length key ≡ 16
    → length nonce ≡ 16
    → 0 < length plaintext
    → length plaintext + 32 ≤ room
    → length plaintext ≤ room_out
    → (sealed : Bytes) × (envelope_encrypt_binary key nonce plaintext room ≡ ok sealed)
      × (length sealed ≡ length plaintext + 32)
      × (envelope_decrypt_binary key sealed room_out ≡ ok plaintext)
unfolding envelope_encrypt_binary envelope_decrypt_binary
envelope_decrypt_binary-encrypt key nonce plaintext room room_out k n given fits fits_out =
    let (c, tag, made, same, size, opened) =
      aes_gcm_decrypt-encrypt key nonce [] plaintext k (omega arith) in
    let sealed = nonce ++ (c ++ tag) in
    let inner = length-append c tag in
    let outer = length-append nonce (c ++ tag) in
    let wide : ltb room (16 + length plaintext + 16) ≡ false = ground arith in
    let long : leb (length sealed) (16 + 16) ≡ false = ground arith in
    let ct : length sealed - 16 - 16 ≡ length c = omega arith in
    let room_ok : ltb room_out (length c) ≡ false = ground arith in
    let head : take 16 sealed ≡ nonce = rw (sym n) (take-append nonce (c ++ tag)) in
    let rest : drop 16 sealed ≡ c ++ tag = rw (sym n) (drop-append nonce (c ++ tag)) in
    (
      sealed,
      rw (wide, made) refl,
      omega arith,
      rw (long, ct, room_ok, head, rest, take-append c tag, drop-append c tag) opened,
    )
