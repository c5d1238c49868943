-- ===== src/Noise/Frames.antt =====
-- src/noise.c, thalovant_noise_encrypt and thalovant_noise_decrypt: the frame that one side accepts is
-- the frame that the other side sent next.
use thalovant_embedded_c.Base.{
  ℕ, ◌+◌, ◌-◌, ◌≤◌, Bool, true, false, not, ◌||◌, [], ◌∷◌, ◌≡◌, refl, sym, subst, ◌↔◌, Bytes,
  length, ltb, Result, ok, err, stuck, invalid, nomem, arith, >>=-eq-ok, fail_if-eq-ok, ok_pair,
}
use thalovant_embedded_c.Noise.{Channel, Noise, noise_chunk_size, settle, seal, unseal}
use thalovant_embedded_c.Noise.Sealing.{seal_inv, unseal_iff_seal}
use thalovant_embedded_c.Noise.Transport.{
  marker, noise_encrypt_body, noise_encrypt, noise_decrypt_body, noise_decrypt,
}

pub settle-eq-ok {ℓ} :
    {A : Type ℓ} (r : Result (Noise × A)) {s : Noise} {a : A} → settle r ≡ (s, ok a) → r ≡ ok (s, a)
unfolding settle
settle-eq-ok stuck h = cc
settle-eq-ok (err code) h = cc
settle-eq-ok (ok (s, a)) h = cc

-- The session takes and gives frames.
abbrev pub IsOpen : Noise → Type 0
IsOpen s = (s.ready ≡ true) × (s.failed ≡ false)

-- The step that a direction takes at a frame.
abbrev pub Carries : Channel → Channel → Bytes → Bytes → Type 0
Carries at next frame c =
    (marker at.chunked frame ≡ ok next.chunked)
    × (seal at.key at.nonce [] frame ≡ ok (next.nonce, c))
    × (next.key ≡ at.key)

marker-nonempty :
    (chunked next : Bool) (frame : Bytes) → marker chunked frame ≡ ok next → 1 ≤ length frame
unfolding marker
marker-nonempty chunked next [] h = cc
marker-nonempty chunked next (flag ∷ rest) h = omega arith

-- What a frame that was sealed says of the state it was sealed in.
pub encrypt_moves :
    (given : Bool) (s next : Noise) (frame c : Bytes) (room : ℕ)
    → noise_encrypt_body given s frame room ≡ ok (next, c)
    → IsOpen s
      × (length frame ≤ noise_chunk_size + 1)
      × (next ≡ record s { send = next.send })
      × Carries s.send next.send frame c
unfolding noise_encrypt_body
encrypt_moves given s next frame c room body =
    let (early, rest) =
      fail_if-eq-ok
        (not given || not s.ready || s.failed || ltb (noise_chunk_size + 1) (length frame)) invalid
        _ body in
    let (enough, rest') = fail_if-eq-ok (ltb room (length frame + 16)) nomem _ rest in
    let (chunked, marked, rest'') = >>=-eq-ok (marker s.send.chunked frame) _ rest' in
    let ((counter, out), made, last) = >>=-eq-ok (seal s.send.key s.send.nonce [] frame) _ rest'' in
    let moved : Channel = record { key = s.send.key; nonce = counter; chunked = chunked } in
    let whole : (record s { send = moved } ≡ next) × (out ≡ c) = ok_pair last in
    let carried : Carries s.send moved frame c = (marked, rw (sym whole.1) made, refl) in
    let session : IsOpen s = (ground arith, ground arith) in
    let (same, carries) : (next ≡ record s { send = next.send })
        × Carries s.send next.send frame c =
      subst (λ n. (n ≡ record s { send = n.send }) × Carries s.send n.send frame c) whole.0
        (refl, carried) in
    (session, ground arith, same, carries)

-- And a frame that was opened.
pub decrypt_moves :
    (given : Bool) (s next : Noise) (frame c : Bytes) (room : ℕ)
    → noise_decrypt_body given s c room ≡ ok (next, frame)
    → IsOpen s
      × (next ≡ record s { receive = next.receive })
      × (marker s.receive.chunked frame ≡ ok next.receive.chunked)
      × (unseal s.receive.key s.receive.nonce [] c ≡ ok (next.receive.nonce, frame))
      × (next.receive.key ≡ s.receive.key)
unfolding noise_decrypt_body
decrypt_moves given s next frame c room body =
    let (early, rest) =
      fail_if-eq-ok
        (not given || not s.ready || s.failed || ltb (length c) 17 || ltb 65535 (length c)) invalid
        _ body in
    let (enough, rest') = fail_if-eq-ok (ltb room (length c - 16)) nomem _ rest in
    let ((counter, text), opened, rest'') =
      >>=-eq-ok (unseal s.receive.key s.receive.nonce [] c) _ rest' in
    let (chunked, marked, last) = >>=-eq-ok (marker s.receive.chunked text) _ rest'' in
    let moved : Channel = record { key = s.receive.key; nonce = counter; chunked = chunked } in
    let whole : (record s { receive = moved } ≡ next) × (text ≡ frame) = ok_pair last in
    let session : IsOpen s = (ground arith, ground arith) in
    let marked' : marker s.receive.chunked frame ≡ ok chunked = rw (sym whole.1) marked in
    let opened' : unseal s.receive.key s.receive.nonce [] c ≡ ok (counter, frame) =
      rw (sym whole.1) opened in
    let moves =
      subst
        (λ n.
          (n ≡ record s { receive = n.receive })
          × (marker s.receive.chunked frame ≡ ok n.receive.chunked)
          × (unseal s.receive.key s.receive.nonce [] c ≡ ok (n.receive.nonce, frame))
          × (n.receive.key ≡ s.receive.key))
        whole.0 (refl, marked', opened', refl) in
    (session, moves.0, moves.1, moves.2, moves.3)

module _ (s : Noise) (frame : Bytes) (room : ℕ) where
  pub encrypt-Carries :
      (next : Noise) (c : Bytes)
      → noise_encrypt true s frame room ≡ (next, ok c)
      → IsOpen s
        × (length frame ≤ noise_chunk_size + 1)
        × (next ≡ record s { send = next.send })
        × Carries s.send next.send frame c
  unfolding noise_encrypt
  encrypt-Carries next c h = encrypt_moves true s next frame c room (settle-eq-ok _ h)

  pub Carries-encrypt :
      (next : Channel) (c : Bytes)
      → IsOpen s
      → length frame ≤ noise_chunk_size + 1
      → length frame + 16 ≤ room
      → Carries s.send next frame c
      → noise_encrypt true s frame room ≡ (record s { send = next }, ok c)
  unfolding noise_encrypt noise_encrypt_body settle
  Carries-encrypt next c (ready, working) short enough (marked, made, same_key) =
      let early : (not s.ready || s.failed || ltb (noise_chunk_size + 1) (length frame)) ≡ false =
        ground arith in
      let fits : ltb room (length frame + 16) ≡ false = ground arith in
      rw (early, fits, marked, made, sym same_key) refl

module _ (s : Noise) (frame c : Bytes) (room : ℕ) (keyed : length s.receive.key ≡ 32) where
  pub decrypt-Carries :
      (next : Noise)
      → noise_decrypt true s c room ≡ (next, ok frame)
      → (next ≡ record s { receive = next.receive }) × Carries s.receive next.receive frame c
  unfolding noise_decrypt
  decrypt-Carries next h =
      let (session, moved, marked, opened, same_key) =
        decrypt_moves true s next frame c room (settle-eq-ok _ h) in
      let made =
        (unseal_iff_seal s.receive.key s.receive.nonce [] frame c next.receive.nonce keyed).0
          opened in
      (moved, (marked, made, same_key))

  pub Carries-decrypt :
      (next : Channel)
      → IsOpen s
      → length frame ≤ noise_chunk_size + 1
      → length frame ≤ room
      → Carries s.receive next frame c
      → noise_decrypt true s c room ≡ (record s { receive = next }, ok frame)
  unfolding noise_decrypt noise_decrypt_body settle
  Carries-decrypt next (ready, working) short fits (marked, made, same_key) =
      let (below, following, size) =
        seal_inv s.receive.key s.receive.nonce [] frame keyed next.nonce c made in
      let some_flag = marker-nonempty s.receive.chunked next.chunked frame marked in
      let early : (not s.ready || s.failed || ltb (length c) 17 || ltb 65535 (length c)) ≡ false =
        ground arith in
      let enough : ltb room (length c - 16) ≡ false = ground arith in
      let opened =
        (unseal_iff_seal s.receive.key s.receive.nonce [] frame c next.nonce keyed).1 made in
      rw (early, enough, opened, marked, sym same_key) refl

-- What one side sends goes to where the other side receives.
abbrev pub IsPaired : Noise → Noise → Type 0
IsPaired a b = IsOpen a × IsOpen b × (a.send ≡ b.receive) × (length a.send.key ≡ 32)

-- Two open sessions, the first of which sends under the key, the counter and the chunk state that
-- the second receives under: for a frame of at most 65001 bytes and buffers with room for it,
-- `noise_decrypt` at the second gives the frame exactly where `noise_encrypt` of that frame at the
-- first gives the ciphertext, and the two directions move to the same next state.
pub decrypt_iff_encrypt :
    (a b : Noise) (next : Channel) (frame c : Bytes) (room room_out : ℕ)
    → IsPaired a b
    → length frame ≤ noise_chunk_size + 1
    → length frame + 16 ≤ room
    → length frame ≤ room_out
    → (noise_decrypt true b c room_out ≡ (record b { receive = next }, ok frame))
      ↔ (noise_encrypt true a frame room ≡ (record a { send = next }, ok c))
decrypt_iff_encrypt a b next frame c room room_out (a_open, b_open, same, keyed) short fits
      fits_out =
    let keyed' : length b.receive.key ≡ 32 =
      subst (λ (d : Channel). length d.key ≡ 32) same keyed in
    (
      λ h. Carries-encrypt a frame room next c a_open short fits (
          subst (λ (d : Channel). Carries d next frame c) (sym same)
            (decrypt-Carries b frame c room_out keyed' (record b { receive = next }) h).1),
      λ h. Carries-decrypt b frame c room_out keyed' next b_open short fits_out (
          subst (λ (d : Channel). Carries d next frame c) same
            (encrypt-Carries a frame room (record a { send = next }) c h).3),
    )
