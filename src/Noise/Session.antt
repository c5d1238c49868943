-- ===== src/Noise/Session.antt =====
-- src/noise.c: what holds of a session over any calls. An error is final, and a nonce is used once.
use thalovant_embedded_c.Base.{
  true, false, List, [], ◌∷◌, map, ◌≡◌, refl, Result, Err, ok, err, stuck, invalid,
}
use thalovant_embedded_c.Noise.{Curve, Noise, settle, failed_state, zero_state}
use thalovant_embedded_c.Noise.Handshake.{
  noise_write, noise_read, noise_write_body, noise_read_body,
}
use thalovant_embedded_c.Noise.Transport.{
  noise_encrypt_body, noise_encrypt, noise_decrypt_body, noise_decrypt, Call, call_write, call_read,
  call_encrypt, call_decrypt, perform, run_calls,
}

settle-err :
    {A : Type 0} (r : Result (Noise × A)) (next : Noise) (code : Err)
    → settle r ≡ (next, err code)
    → next ≡ failed_state
unfolding settle
settle-err stuck next code h = cc
settle-err (err e) next code h = cc
settle-err (ok (s, a)) next code h = cc

perform-err :
    (c : Curve) (call : Call) (s next : Noise) (code : Err)
    → perform c call s ≡ (next, err code)
    → next ≡ failed_state
unfolding perform noise_write noise_read noise_encrypt noise_decrypt
perform-err c (call_write given input room) s next code h =
    settle-err (noise_write_body c given s input room) next code h
perform-err c (call_read given input room) s next code h =
    settle-err (noise_read_body c given s input room) next code h
perform-err c (call_encrypt given input room) s next code h =
    settle-err (noise_encrypt_body given s input room) next code h
perform-err c (call_decrypt given input room) s next code h =
    settle-err (noise_decrypt_body given s input room) next code h

-- Every call refuses the failed state.
pub perform-failed :
    (c : Curve) (call : Call) → perform c call failed_state ≡ (failed_state, err invalid)
unfolding perform noise_write noise_read noise_encrypt noise_decrypt noise_write_body
    noise_read_body noise_encrypt_body noise_decrypt_body settle failed_state zero_state
perform-failed c (call_write true input room) = refl
perform-failed c (call_write false input room) = refl
perform-failed c (call_read true input room) = refl
perform-failed c (call_read false input room) = refl
perform-failed c (call_encrypt true input room) = refl
perform-failed c (call_encrypt false input room) = refl
perform-failed c (call_decrypt true input room) = refl
perform-failed c (call_decrypt false input room) = refl

run_calls-failed :
    (c : Curve) (calls : List Call)
    → run_calls c calls failed_state ≡ (failed_state, map (λ call. err invalid) calls)
unfolding run_calls
run_calls-failed c [] = refl
run_calls-failed c (call ∷ calls) = rw (perform-failed c call, run_calls-failed c calls) refl

-- After a call that returns an error, the state is the failed one, in which every key and every
-- counter is zero, and it stays so: each of any later calls returns `invalid`.
pub run_calls-after_error :
    (c : Curve) (call : Call) (calls : List Call) (s next : Noise) (code : Err)
    → perform c call s ≡ (next, err code)
    → run_calls c calls next ≡ (failed_state, map (λ later. err invalid) calls)
run_calls-after_error c call calls s next code h =
    rw (perform-err c call s next code h) (run_calls-failed c calls)
