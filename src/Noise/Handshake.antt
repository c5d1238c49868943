-- ===== src/Noise/Handshake.antt =====
-- src/noise.c: the handshake, from thalovant_noise_init to the split, one function for each token of a
-- message. `given` says that no pointer the function needs is NULL.
use thalovant_embedded_c.Base.{
  ℕ, ◌+◌, ◌-◌, ◌%◌, Bool, true, false, not, ◌&&◌, ◌||◌, Option, none, some, List, [], ◌∷◌, ◌++◌,
  Bytes, codes, length, take, drop, replicate, get_or, ltb, leb, ◌==◌, if◌then◌else◌, Result, ok,
  err, stuck, invalid, nomem, auth, ◌>>=◌, ◌>>◌, fail_if,
}
use thalovant_embedded_c.Sha256.{sha256}
use thalovant_embedded_c.AesGcm.Gcm.{ct_compare}
use thalovant_embedded_c.Noise.{
  Curve, Symmetric, Keys, Noise, noise_xx, noise_kk, Token, xx, kk, valid_handshake_step, wiped,
  zero_state, settle, hkdf, mix_hash, mix_key, tag_size, encrypt_hash, decrypt_hash, token_e,
  token_s, token_ee, token_es, token_se, token_ss, token_psk,
}

-- The local and the remote key of a token; none where the token is no Diffie-Hellman one.
unfoldable pub dh_keys : Bool → Keys → Token → Option (Bytes × Bytes)
dh_keys initiator k token_ee = some (k.ephemeral, k.remote_ephemeral)
dh_keys initiator k token_es =
    some
      (if initiator then (k.ephemeral, k.remote_static) else (k.local_static, k.remote_ephemeral))
dh_keys initiator k token_se =
    some
      (if initiator then (k.local_static, k.remote_ephemeral) else (k.ephemeral, k.remote_static))
dh_keys initiator k token_ss = some (k.local_static, k.remote_static)
dh_keys initiator k _ = none

unfoldable pub mix_shared : Curve → Symmetric → Option (Bytes × Bytes) → Result Symmetric
mix_shared c s none = err invalid
mix_shared c s (some (local, remote)) = do
  shared ← c.x25519 local remote
  ok (mix_key s shared false)

unfoldable pub dh : Curve → Bool → Keys → Symmetric → Token → Result Symmetric
dh c initiator k s token = mix_shared c s (dh_keys initiator k token)

-- The step is the last one of the pattern.
unfoldable pub last_step : ℕ → ℕ → Bool
last_step pattern step = step == (if pattern == noise_xx then 3 else 2)

-- What split does behind its early return.
unfoldable pub split_keys : Noise → Noise
split_keys s =
    let out = hkdf s.symmetric.ck [] 2 in
    record s {
      send = record s.send { key = get_or out (if s.initiator then 0 else 1) [] };
      receive = record s.receive { key = get_or out (if s.initiator then 1 else 0) [] };
      symmetric = record s.symmetric { ck = wiped; key = wiped };
      keys = record s.keys { local_static = wiped; ephemeral = wiped; psk = wiped };
      ready = true;
    }

unfoldable pub split : Noise → Noise
split s =
    let next : Noise = record s { step = s.step + 1 } in
    if last_step s.pattern (s.step + 1) then split_keys next else next

unfoldable pub protocol_name : ℕ → Bytes
protocol_name pattern =
    if pattern == noise_xx
    then codes "Noise_XXpsk2_25519_AESGCM_SHA256"
    else codes "Noise_KKpsk0_25519_AESGCM_SHA256"

unfoldable pub first_hash : Bytes → Bytes
first_hash name =
    if leb (length name) 32 then name ++ replicate (32 - length name) 0 else sha256 name

-- The pin, and the remote static key that it gives a KK session.
unfoldable pub pinned : ℕ → Option Bytes → Keys → Keys
pinned pattern none k = k
pinned pattern (some pin) k = record k {
  has_pin = true;
  pin = pin;
  remote_static = if pattern == noise_kk then pin else k.remote_static;
}

unfoldable pub is_some {ℓ} : {A : Type ℓ} → Option A → Bool
is_some none = false
is_some (some a) = true

-- The hash and the chaining key of the protocol name, with the prologue and the known keys.
unfoldable pub first_symmetric : ℕ → Bool → Bytes → Keys → Symmetric
first_symmetric pattern initiator prologue k =
    let hash = first_hash (protocol_name pattern) in
    let start : Symmetric = record {
      ck = hash;
      hash = hash;
      key = wiped;
      nonce = 0;
      has_key = false;
    } in
    let mixed = mix_hash start prologue in
    if pattern == noise_kk
    then mix_hash (mix_hash mixed (if initiator then k.local_public else k.remote_static))
        (if initiator then k.remote_static else k.local_public)
    else mixed

-- if (rc) return fail(s, THALOVANT_ERR_INVALID);
unfoldable pub public_or_invalid : Result Bytes → Result Bytes
public_or_invalid stuck = err invalid
public_or_invalid (err code) = err invalid
public_or_invalid (ok key) = ok key

unfoldable pub noise_init_body :
    Curve
    → Bool
    → ℕ
    → Bool
    → Bytes
    → Bytes
    → Bytes
    → Bytes
    → Option Bytes
    → Result (Noise × Unit {0})
noise_init_body c given pattern initiator psk prologue static_private ephemeral_private pin = do
  fail_if
      (not (pattern == noise_xx || pattern == noise_kk)
        || not given
        || pattern == noise_kk && not (is_some pin))
      invalid
  local_public ← public_or_invalid (c.x25519_public static_private)
  let k = pinned pattern pin (record zero_state.keys {
    psk = psk;
    local_static = static_private;
    ephemeral = ephemeral_private;
    local_public = local_public;
  })
  ok (
    record zero_state {
      pattern = pattern;
      initiator = initiator;
      keys = k;
      symmetric = first_symmetric pattern initiator prologue k;
    },
    tt,
  )

unfoldable pub noise_init :
    Curve → Bool → ℕ → Bool → Bytes → Bytes → Bytes → Bytes → Option Bytes → Noise × Result {0} Unit
noise_init c given pattern initiator psk prologue static_private ephemeral_private pin =
    settle
      (noise_init_body c given pattern initiator psk prologue static_private ephemeral_private pin)

-- The tokens of the message that the state is at.
unfoldable pub message_tokens : Noise → List Token
message_tokens s = if s.pattern == noise_xx then xx s.step else kk s.step

-- One round of the loop of thalovant_noise_write: the state, and the bytes put at the offset.
unfoldable pub write_token : Curve → Bool → Keys → Symmetric → Token → Result (Symmetric × Bytes)
write_token c initiator k s token_e = do
  key ← c.x25519_public k.ephemeral
  ok (mix_key (mix_hash s key) key false, key)
write_token c initiator k s token_s = encrypt_hash s k.local_public
write_token c initiator k s token_psk = ok (mix_key s k.psk true, [])
write_token c initiator k s token = do mixed ← dh c initiator k s token; ok (mixed, [])

unfoldable pub write_tokens :
    Curve → Bool → Keys → List Token → Symmetric → Result (Symmetric × Bytes)
write_tokens c initiator k [] s = ok (s, [])
write_tokens c initiator k (token ∷ tokens) s = do
  (s1, head) ← write_token c initiator k s token
  (s2, tail) ← write_tokens c initiator k tokens s1
  ok (s2, head ++ tail)

-- s->step % 2 == 0 at the initiator, and the other way round at the responder.
unfoldable pub writes_next : Noise → Bool
writes_next s = if s.step % 2 == 0 then s.initiator else not s.initiator

unfoldable pub noise_write_body : Curve → Bool → Noise → Bytes → ℕ → Result (Noise × Bytes)
noise_write_body c given s payload capacity = do
  fail_if (not given || s.failed || s.ready || not (valid_handshake_step s) || not (writes_next s))
      invalid
  fail_if (ltb (65535 - 96) (length payload) || ltb capacity (length payload + 96)) nomem
  (s1, head) ← write_tokens c s.initiator s.keys (message_tokens s) s.symmetric
  (s2, tail) ← encrypt_hash s1 payload
  ok (split (record s { symmetric = s2 }), head ++ tail)

unfoldable pub noise_write : Curve → Bool → Noise → Bytes → ℕ → Noise × Result Bytes
noise_write c given s payload capacity = settle (noise_write_body c given s payload capacity)

-- if (len - offset < n) return e; and the n bytes with those behind them.
unfoldable pub cut : ℕ → Bytes → Result (Bytes × Bytes)
cut n rest = do fail_if (ltb (length rest) n) invalid; ok (take n rest, drop n rest)

-- One round of the loop of thalovant_noise_read, on the bytes from the offset on.
unfoldable pub read_token :
    Curve → Bool → Keys → Symmetric → Token → Bytes → Result (Keys × Symmetric × Bytes)
read_token c initiator k s token_e rest = do
  (key, rest') ← cut 32 rest
  ok (record k { remote_ephemeral = key }, mix_key (mix_hash s key) key false, rest')
read_token c initiator k s token_s rest = do
  (sealed, rest') ← cut (32 + tag_size s) rest
  (s', key) ← decrypt_hash s sealed
  fail_if (k.has_pin && not (ct_compare k.pin key == 0)) auth
  ok (record k { remote_static = key }, s', rest')
read_token c initiator k s token_psk rest = ok (k, mix_key s k.psk true, rest)
read_token c initiator k s token rest = do mixed ← dh c initiator k s token; ok (k, mixed, rest)

unfoldable pub read_tokens :
    Curve → Bool → List Token → Keys → Symmetric → Bytes → Result (Keys × Symmetric × Bytes)
read_tokens c initiator [] k s rest = ok (k, s, rest)
read_tokens c initiator (token ∷ tokens) k s rest = do
  (k1, s1, rest1) ← read_token c initiator k s token rest
  read_tokens c initiator tokens k1 s1 rest1

unfoldable pub noise_read_body : Curve → Bool → Noise → Bytes → ℕ → Result (Noise × Bytes)
noise_read_body c given s message capacity = do
  fail_if
      (not given
        || s.failed
        || s.ready
        || not (valid_handshake_step s)
        || writes_next s
        || ltb 65535 (length message))
      invalid
  (k, s1, rest) ← read_tokens c s.initiator (message_tokens s) s.keys s.symmetric message
  fail_if (ltb (length rest) (tag_size s1)) auth
  fail_if (ltb capacity (length rest - tag_size s1)) nomem
  (s2, payload) ← decrypt_hash s1 rest
  ok (split (record s { symmetric = s2; keys = k }), payload)

unfoldable pub noise_read : Curve → Bool → Noise → Bytes → ℕ → Noise × Result Bytes
noise_read c given s message capacity = settle (noise_read_body c given s message capacity)
