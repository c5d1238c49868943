-- ===== src/Noise/Exchange.antt =====
-- src/noise.c, thalovant_noise_write against thalovant_noise_read: one message of a handshake.
use thalovant_embedded_c.Base.{
  ℕ, ◌+◌, ◌-◌, ◌≤◌, ◌<◌, Bool, true, false, not, ◌||◌, List, ◌++◌, ◌≡◌, refl, Bytes, length,
  length-append, ltb, ok, arith,
}
use thalovant_embedded_c.Noise.{
  Curve, Symmetric, Keys, Token, Noise, zero_state, uint64_max, valid_handshake_step, tag_size,
  settle,
}
use thalovant_embedded_c.Noise.Handshake.{
  noise_write, noise_read, noise_write_body, noise_read_body, split, message_tokens, writes_next,
}
use thalovant_embedded_c.Noise.Agreement.{IsAgreement, Sides, Known, Knows}
use thalovant_embedded_c.Noise.Tokens.{
  IsFresh, decrypt_hash-encrypt_hash, tag_size-short, allowed, learn_all, tokens_size, AllTaken,
  take_tokens,
}

-- A side of a handshake that goes on.
abbrev pub state : ℕ → ℕ → Bool → Symmetric → Keys → Noise
state pattern step initiator s k = record zero_state {
  pattern = pattern;
  step = step;
  initiator = initiator;
  symmetric = s;
  keys = k;
}

-- The message that is written at the step, where what its tokens need is known.
abbrev pub IsTurn : ℕ → ℕ → Bool → Known → Symmetric → Keys → Type 0
IsTurn pattern step initiator k s w =
    (valid_handshake_step (state pattern step initiator s w) ≡ true)
    × (writes_next (state pattern step initiator s w) ≡ true)
    × (allowed (message_tokens (state pattern step initiator s w)) initiator k ≡ true)
    × (tokens_size (message_tokens (state pattern step initiator s w)) ≤ 80)
    × (length (message_tokens (state pattern step initiator s w)) ≤ 5)

module _ (c : Curve) (law : IsAgreement c) (pattern step n : ℕ) (initiator : Bool) (s : Symmetric)
    (w r : Keys) (we re : Bytes) (k : Known) (turn : IsTurn pattern step initiator k s w)
    (sides : Sides c w r we re) (known : Knows k w r we re) (fresh : IsFresh n s)
    (low : n + 6 < uint64_max) (p : Bytes) (short : length p ≤ 65535 - 96) where
  abbrev writer : Noise
  writer = state pattern step initiator s w

  abbrev reader : Noise
  reader = state pattern step (not initiator) s r

  abbrev tokens : List Token
  tokens = message_tokens writer

  taken : AllTaken c initiator w r we re n s tokens k
  taken =
      take_tokens c initiator w r we re n s tokens k law sides known fresh (omega (arith, turn.4))
        turn.2

  reads_next : writes_next reader ≡ false
  unfolding writes_next
  reads_next = let h = turn.1 in ground arith

  reads_valid : valid_handshake_step reader ≡ true
  unfolding valid_handshake_step
  reads_valid = turn.0

  reads_tokens : message_tokens reader ≡ tokens
  unfolding message_tokens
  reads_tokens = refl

  -- The message gets through: the reader is given the payload, and both sides go on alike.
  pub message :
      (s' : Symmetric) × (out : Bytes) × (r' : Keys) × (noise_write c true writer p 65535
        ≡ (split (state pattern step initiator s' w), ok out))
      × (noise_read c true reader out 65535
          ≡ (split (state pattern step (not initiator) s' r'), ok p))
      × IsFresh (n + 6) s'
      × Sides c w r' we re
      × Knows (learn_all tokens k) w r' we re
      × (r'.local_public ≡ r.local_public)
  unfolding noise_write noise_read noise_write_body noise_read_body settle zero_state
  message =
      let (s1, head, r', wrote, read, size, fresh1, sides1, known1, own1) = taken in
      let (s2, tail, closed, opened, size2, fresh2) =
        decrypt_hash-encrypt_hash (n + length tokens) s1 p fresh1 (omega (arith, turn.4)) in
      let tag = tag_size-short s1 in
      let whole = length-append head tail in
      let long : (ltb (65535 - 96) (length p) || ltb 65535 (length p + 96)) ≡ false =
        ground arith in
      let most : length (head ++ tail) ≤ 65535 = omega (arith, turn.3) in
      let wide : ltb 65535 (length (head ++ tail)) ≡ false = ground arith in
      let tagged : ltb (length tail) (tag_size s1) ≡ false = ground arith in
      let room : ltb 65535 (length tail - tag_size s1) ≡ false = ground arith in
      (
        s2,
        head ++ tail,
        r',
        rw (turn.0, turn.1, long, wrote, closed) refl,
        rw (reads_valid, reads_next, wide, reads_tokens, read tail, tagged, room, opened) refl,
        (fresh2.0, omega (arith, turn.4)),
        sides1,
        known1,
        own1,
      )
