-- ===== src/Noise/Completion.antt =====
-- src/noise.c: how a handshake starts, goes from message to message, and ends.
use thalovant_embedded_c.Base.{
  ℕ, ◌+◌, Bool, true, false, not, ◌&&◌, ◌||◌, Option, List, [], ◌∷◌, ◌≡◌, refl, sym, ◌∙◌, Bytes,
  ◌==◌, Result, ok, invalid, ◌>>=◌, arith, >>=-eq-ok, fail_if-eq-ok, ok_pair,
}
use thalovant_embedded_c.Noise.{Curve, Symmetric, Keys, Noise, noise_xx, noise_kk, zero_state}
use thalovant_embedded_c.Noise.Sizes.{length-hkdf}
use thalovant_embedded_c.Noise.Frames.{IsPaired, settle-eq-ok}
use thalovant_embedded_c.Noise.Handshake.{
  noise_init, noise_init_body, noise_write, noise_read, split, split_keys, last_step, pinned,
  first_symmetric, public_or_invalid, is_some,
}
use thalovant_embedded_c.Noise.Agreement.{IsAgreement, Sides, Known, Knows}
use thalovant_embedded_c.Noise.Exchange.{state}

-- The two sides write in turn, and each message is read by the other.
unfoldable pub exchange : Curve → List Bytes → Noise → Noise → Result (Noise × Noise × List Bytes)
exchange c [] w r = ok (w, r, [])
exchange c (payload ∷ payloads) w r = do
  let (w', sent) = noise_write c true w payload 65535
  out ← sent
  let (r', read) = noise_read c true r out 65535
  got ← read
  (a, b, gots) ← exchange c payloads r' w'
  ok (a, b, got ∷ gots)

pub exchange_turn :
    (c : Curve) (p out : Bytes) (ps : List Bytes) (w r w' r' a b : Noise) (gots : List Bytes)
    → noise_write c true w p 65535 ≡ (w', ok out)
    → noise_read c true r out 65535 ≡ (r', ok p)
    → exchange c ps r' w' ≡ ok (a, b, gots)
    → exchange c (p ∷ ps) w r ≡ ok (a, b, p ∷ gots)
unfolding exchange
exchange_turn c p out ps w r w' r' a b gots wrote read rest = rw (wrote, read, rest) refl

-- The keys that a side starts with.
abbrev pub own_keys : ℕ → Bytes → Bytes → Bytes → Bytes → Option Bytes → Keys
own_keys pattern psk own_static own_public ephemeral pin =
    pinned pattern pin (record zero_state.keys {
      psk = psk;
      local_static = own_static;
      ephemeral = ephemeral;
      local_public = own_public;
    })

pub noise_init-state :
    (c : Curve) (pattern : ℕ) (initiator : Bool) (psk prologue s e p : Bytes) (pin : Option Bytes)
    (n : Noise)
    → c.x25519_public s ≡ ok p
    → noise_init c true pattern initiator psk prologue s e pin ≡ (n, ok tt)
    → n
      ≡ state pattern 0 initiator
          (first_symmetric pattern initiator prologue (own_keys pattern psk s p e pin))
          (own_keys pattern psk s p e pin)
unfolding noise_init noise_init_body public_or_invalid zero_state
noise_init-state c pattern initiator psk prologue s e p pin n public h =
    let body = settle-eq-ok (noise_init_body c true pattern initiator psk prologue s e pin) h in
    let (early, rest) =
      fail_if-eq-ok
        (not (pattern == noise_xx || pattern == noise_kk)
          || not true
          || pattern == noise_kk && not (is_some pin))
        invalid _ body in
    let (key, made, last) = >>=-eq-ok (public_or_invalid (c.x25519_public s)) _ rest in
    let same : p ≡ key = public_key p key (rw public at made) in
    sym (ok_pair (rw (sym same) at last)).0
  where
    public_key : (x y : Bytes) → public_or_invalid (ok x) ≡ ok y → x ≡ y
    public_key x y e = cc

-- The step that is not the last.
pub split-between :
    (pattern step : ℕ) (initiator : Bool) (s : Symmetric) (k : Keys)
    → last_step pattern (step + 1) ≡ false
    → split (state pattern step initiator s k) ≡ state pattern (step + 1) initiator s k
unfolding split zero_state
split-between pattern step initiator s k h = rw h refl

-- The last step leaves the two sides with each other's keys.
pub split-IsPaired :
    (pattern step : ℕ) (s : Symmetric) (k k' : Keys)
    → last_step pattern (step + 1) ≡ true
    → IsPaired (split (state pattern step true s k)) (split (state pattern step false s k'))
      × IsPaired (split (state pattern step false s k')) (split (state pattern step true s k))
      × ((split (state pattern step true s k)).keys.remote_static ≡ k.remote_static)
      × ((split (state pattern step false s k')).keys.remote_static ≡ k'.remote_static)
unfolding split split_keys zero_state
split-IsPaired pattern step s k k' h =
    let first = length-hkdf s.ck [] 2 0 (omega arith) in
    let second = length-hkdf s.ck [] 2 1 (omega arith) in
    rw h (
      ((refl, refl), (refl, refl), refl, first),
      ((refl, refl), (refl, refl), refl, second),
      refl,
      refl,
    )

unfoldable pub swap_known : Known → Known
swap_known k = record {
  w_static = k.r_static;
  w_ephemeral = k.r_ephemeral;
  r_static = k.w_static;
  r_ephemeral = k.w_ephemeral;
}

pub swap_Knows :
    (k : Known) (w r : Keys) (we re : Bytes) → Knows k w r we re → Knows (swap_known k) r w re we
unfolding swap_known
swap_Knows k w r we re (a, b, x, y) = (x, y, a, b)

pub swap_Sides :
    (c : Curve) (w r : Keys) (we re : Bytes) → IsAgreement c → Sides c w r we re → Sides c r w re we
swap_Sides c w r we re (size, law) (ws, wp, rs, rp, ee, es, se, ss, psk, wpin, rpin) = (
  rs,
  rp,
  ws,
  wp,
  (ee.0, law r.ephemeral w.ephemeral re we rp wp ∙ ee.1),
  (se.0, law r.ephemeral w.local_static re w.local_public rp ws ∙ se.1),
  (es.0, law r.local_static w.ephemeral r.local_public we rs wp ∙ es.1),
  (ss.0, law r.local_static w.local_static r.local_public w.local_public rs ws ∙ ss.1),
  sym psk,
  rpin,
  wpin,
)
