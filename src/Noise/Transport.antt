-- ===== src/Noise/Transport.antt =====
-- src/noise.c: the frames of a session that is ready, the calls of a session as a whole, and
-- thalovant_noise_select.
use thalovant_embedded_c.Base.{
  ℕ, ◌+◌, ◌-◌, Bool, true, false, not, ◌&&◌, ◌||◌, Option, none, some, List, [], ◌∷◌, Bytes, codes,
  length, ltb, ◌==◌, if◌then◌else◌, Result, ok, err, invalid, nomem, unsupported, ◌>>=◌, ◌>>◌,
  fail_if, beq,
}
use thalovant_embedded_c.Noise.{
  Curve, Noise, noise_xx, noise_kk, noise_chunk_size, settle, seal, unseal,
}
use thalovant_embedded_c.Noise.Handshake.{noise_write, noise_read}

-- The value of *chunked behind a frame that may come next.
unfoldable pub marker : Bool → Bytes → Result Bool
marker chunked [] = err invalid
marker chunked (flag ∷ rest) =
    if ltb 5 flag
    then err invalid
    else (if ltb flag 2
        then (fail_if chunked invalid >> ok chunked)
        else (if ltb flag 4
            then (fail_if chunked invalid >> ok true)
            else (fail_if (not chunked) invalid >> ok (if flag == 5 then false else chunked))))

unfoldable pub noise_encrypt_body : Bool → Noise → Bytes → ℕ → Result (Noise × Bytes)
noise_encrypt_body given s frame capacity = do
  fail_if (not given || not s.ready || s.failed || ltb (noise_chunk_size + 1) (length frame))
      invalid
  fail_if (ltb capacity (length frame + 16)) nomem
  chunked ← marker s.send.chunked frame
  (counter, out) ← seal s.send.key s.send.nonce [] frame
  ok (record s { send = record { key = s.send.key; nonce = counter; chunked = chunked } }, out)

unfoldable pub noise_encrypt : Bool → Noise → Bytes → ℕ → Noise × Result Bytes
noise_encrypt given s frame capacity = settle (noise_encrypt_body given s frame capacity)

unfoldable pub noise_decrypt_body : Bool → Noise → Bytes → ℕ → Result (Noise × Bytes)
noise_decrypt_body given s ciphertext capacity = do
  fail_if
      (not given
        || not s.ready
        || s.failed
        || ltb (length ciphertext) 17
        || ltb 65535 (length ciphertext))
      invalid
  fail_if (ltb capacity (length ciphertext - 16)) nomem
  (counter, frame) ← unseal s.receive.key s.receive.nonce [] ciphertext
  chunked ← marker s.receive.chunked frame
  ok (
    record s { receive = record { key = s.receive.key; nonce = counter; chunked = chunked } },
    frame,
  )

unfoldable pub noise_decrypt : Bool → Noise → Bytes → ℕ → Noise × Result Bytes
noise_decrypt given s ciphertext capacity = settle (noise_decrypt_body given s ciphertext capacity)

-- A call that a caller makes of a session that was set up.
pub data Call : Type 0 where
  call_write call_read call_encrypt call_decrypt :
      (given : Bool) → (input : Bytes) → (capacity : ℕ) → Call

unfoldable pub perform : Curve → Call → Noise → Noise × Result Bytes
perform c (call_write given input capacity) s = noise_write c given s input capacity
perform c (call_read given input capacity) s = noise_read c given s input capacity
perform c (call_encrypt given input capacity) s = noise_encrypt given s input capacity
perform c (call_decrypt given input capacity) s = noise_decrypt given s input capacity

-- Calls one after the other, whatever each of them returns.
unfoldable pub run_calls : Curve → List Call → Noise → Noise × List (Result Bytes)
run_calls c [] s = (s, [])
run_calls c (call ∷ calls) s =
    let (next, r) = perform c call s in let (last, rs) = run_calls c calls next in (last, r ∷ rs)

-- The loops of thalovant_noise_select: a string that is NULL is passed over.
unfoldable pub offers : Bytes → List (Option Bytes) → Bool
offers name [] = false
offers name (none ∷ rest) = offers name rest
offers name (some text ∷ rest) = beq text name || offers name rest

-- A pinned KK before an XX.
unfoldable pub chosen_pattern : Bool → Bool → Result ℕ
chosen_pattern kk xx = if kk then ok noise_kk else (if xx then ok noise_xx else err unsupported)

unfoldable pub noise_select : Bool → List (Option Bytes) → List (Option Bytes) → Bool → Result ℕ
noise_select given patterns suites has_pin = do
  fail_if (not given) invalid
  fail_if (not (offers (codes "25519_AESGCM_SHA256") suites)) unsupported
  chosen_pattern (has_pin && offers (codes "KKpsk0") patterns) (offers (codes "XXpsk2") patterns)
