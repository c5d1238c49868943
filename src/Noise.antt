-- ===== src/Noise.antt =====
-- src/noise.c and include/thalovant/noise.h: the state of a Noise session, the key derivation over
-- SHA-256, and sealing under a counter. The fields of `thalovant_noise` stand in four records: the
-- symmetric state of the handshake, the keys of the two sides, and the two directions of the
-- transport. X25519 is an interface, `Curve`, which the operations take as an argument.
mod Handshake
mod Transport
mod Sizes
mod Sealing
mod Frames
mod Session
mod Nonces
mod Delivery
mod Agreement
mod Tokens
mod Exchange
mod Completion
mod Patterns
mod Establish
mod Choice
mod Examples
use thalovant_embedded_c.Base.{
  ℕ, zero, suc, ◌+◌, ◌-◌, ◌%◌, ◌^◌, Bool, true, false, ◌&&◌, ◌||◌, List, [], ◌∷◌, ◌++◌, bit_xor,
  Bytes, length, take, drop, replicate, get_or, ltb, ◌==◌, if◌then◌else◌, Result, ok, err, stuck,
  auth, ◌>>=◌, ◌>>◌, fail_if,
}
use thalovant_embedded_c.Sha256.{sha256_init, sha256_update, sha256_final}
use thalovant_embedded_c.AesGcm.Gcm.{be64, aes256_gcm_encrypt, aes256_gcm_decrypt}

pub record Curve : Type 0 where
  pub x25519 : Bytes → Bytes → Result Bytes
  pub x25519_public : Bytes → Result Bytes

pub record Symmetric : Type 0 where
  pub ck : Bytes
  pub hash : Bytes
  pub key : Bytes
  pub nonce : ℕ
  pub has_key : Bool

pub record Keys : Type 0 where
  pub psk : Bytes
  pub local_static : Bytes
  pub local_public : Bytes
  pub ephemeral : Bytes
  pub remote_static : Bytes
  pub remote_ephemeral : Bytes
  pub pin : Bytes
  pub has_pin : Bool

-- send_key, send_nonce and send_chunked, or those of receiving.
pub record Channel : Type 0 where
  pub key : Bytes
  pub nonce : ℕ
  pub chunked : Bool

pub record Noise : Type 0 where
  pub symmetric : Symmetric
  pub keys : Keys
  pub send : Channel
  pub receive : Channel
  pub pattern : ℕ
  pub step : ℕ
  pub initiator : Bool
  pub ready : Bool
  pub failed : Bool

abbrev pub noise_xx : ℕ
noise_xx = 1

abbrev pub noise_kk : ℕ
noise_kk = 2

abbrev pub noise_chunk_size : ℕ
noise_chunk_size = 65000

abbrev pub uint64_max : ℕ
uint64_max = 2 ^ 64 - 1

pub data Token : Type 0 where
  token_e token_s token_ee token_es token_se token_ss token_psk : Token

-- The rows of xx and kk.
unfoldable pub xx : ℕ → List Token
xx zero = token_e ∷ []
xx (suc zero) = token_e ∷ token_ee ∷ token_s ∷ token_es ∷ token_psk ∷ []
xx (suc (suc step)) = token_s ∷ token_se ∷ []

unfoldable pub kk : ℕ → List Token
kk zero = token_psk ∷ token_e ∷ token_es ∷ token_ss ∷ []
kk (suc step) = token_e ∷ token_ee ∷ token_se ∷ []

unfoldable pub valid_handshake_step : Noise → Bool
valid_handshake_step s =
    s.pattern == noise_xx && ltb s.step 3 || s.pattern == noise_kk && ltb s.step 2

abbrev pub wiped : Bytes
wiped = replicate 32 0

-- memset(s, 0, sizeof *s)
unfoldable pub zero_state : Noise
zero_state = record {
  symmetric = record { ck = wiped; hash = wiped; key = wiped; nonce = 0; has_key = false };
  keys = record {
    psk = wiped;
    local_static = wiped;
    local_public = wiped;
    ephemeral = wiped;
    remote_static = wiped;
    remote_ephemeral = wiped;
    pin = wiped;
    has_pin = false;
  };
  send = record { key = wiped; nonce = 0; chunked = false };
  receive = record { key = wiped; nonce = 0; chunked = false };
  pattern = 0;
  step = 0;
  initiator = false;
  ready = false;
  failed = false;
}

-- What fail leaves.
unfoldable pub failed_state : Noise
failed_state = record zero_state { failed = true }

-- return fail(s, rc), or the state and what was written.
unfoldable pub settle {ℓ} : {A : Type ℓ} → Result (Noise × A) → Noise × Result A
settle stuck = (failed_state, stuck)
settle (err code) = (failed_state, err code)
settle (ok (s, a)) = (s, ok a)

unfoldable pub digest_pair : Bytes → Bytes → Bytes
digest_pair a b = sha256_final (sha256_update (sha256_update sha256_init a) b)

-- (i < 32 ? key[i] : 0) ^ v, from byte i on.
unfoldable pub hmac_pad : ℕ → ℕ → Bytes → ℕ → Bytes
hmac_pad zero i key v = []
hmac_pad (suc left) i key v =
    bit_xor (if ltb i 32 then get_or key i 0 else 0) v ∷ hmac_pad left (i + 1) key v

unfoldable pub hmac : Bytes → Bytes → Bytes
hmac key input = digest_pair (hmac_pad 64 0 key 0x5c) (digest_pair (hmac_pad 64 0 key 0x36) input)

-- The loop of hkdf: `previous` is the last output, and no bytes before the first.
unfoldable pub hkdf_loop : ℕ → ℕ → Bytes → Bytes → List Bytes
hkdf_loop zero i temp previous = []
hkdf_loop (suc left) i temp previous =
    let output = hmac temp (previous ++ (i + 1) % 256 ∷ []) in
    output ∷ hkdf_loop left (i + 1) temp output

unfoldable pub hkdf : Bytes → Bytes → ℕ → List Bytes
hkdf ck input count = hkdf_loop count 0 (hmac ck input) []

unfoldable pub mix_hash : Symmetric → Bytes → Symmetric
mix_hash s input = record s { hash = digest_pair s.hash input }

unfoldable pub mix_key : Symmetric → Bytes → Bool → Symmetric
mix_key s input and_hash =
    let out = hkdf s.ck input (if and_hash then 3 else 2) in
    record {
      ck = get_or out 0 [];
      hash = if and_hash then digest_pair s.hash (get_or out 1 []) else s.hash;
      key = get_or out (if and_hash then 2 else 1) [];
      nonce = 0;
      has_key = true;
    }

unfoldable pub nonce_bytes : ℕ → Bytes
nonce_bytes n = replicate 4 0 ++ be64 n

-- The next counter, and the ciphertext with its tag.
unfoldable pub seal : Bytes → ℕ → Bytes → Bytes → Result (ℕ × Bytes)
seal key counter ad plaintext = do
  fail_if (counter == uint64_max) auth
  (ciphertext, tag) ← aes256_gcm_encrypt key (nonce_bytes counter) ad plaintext
  ok (counter + 1, ciphertext ++ tag)

unfoldable pub unseal : Bytes → ℕ → Bytes → Bytes → Result (ℕ × Bytes)
unseal key counter ad sealed = do
  let n = length sealed - 16
  fail_if (ltb (length sealed) 16 || counter == uint64_max) auth
  plaintext ← aes256_gcm_decrypt key (nonce_bytes counter) ad (take n sealed) (drop n sealed)
  ok (counter + 1, plaintext)

-- The tag of a message, where there is a key.
unfoldable pub tag_size : Symmetric → ℕ
tag_size s = if s.has_key then 16 else 0

unfoldable pub encrypt_hash : Symmetric → Bytes → Result (Symmetric × Bytes)
encrypt_hash s plaintext = do
  (counter, out) ←
      if s.has_key then seal s.key s.nonce s.hash plaintext else ok (s.nonce, plaintext)
  ok (mix_hash (record s { nonce = counter }) out, out)

unfoldable pub decrypt_hash : Symmetric → Bytes → Result (Symmetric × Bytes)
decrypt_hash s sealed = do
  let next = digest_pair s.hash sealed
  (counter, out) ← if s.has_key then unseal s.key s.nonce s.hash sealed else ok (s.nonce, sealed)
  ok (record s { nonce = counter; hash = next }, out)
