-- ===== src/Noise/Agreement.antt =====
-- src/noise.c, dh: both sides of a handshake come to one secret. `Curve` is used by its laws: a public
-- key has 32 bytes, and two private keys meet in one secret whichever side multiplies.
use thalovant_embedded_c.Base.{
  Bool, true, false, not, ◌&&◌, some, ◌≡◌, refl, sym, ◌∙◌, Bytes, length, ok, arith,
}
use thalovant_embedded_c.Noise.{
  Curve, Symmetric, Keys, Token, mix_key, token_ee, token_es, token_se, token_ss,
}
use thalovant_embedded_c.Noise.Handshake.{dh_keys, mix_shared, dh}

abbrev pub IsAgreement : Curve → Type 0
IsAgreement c =
    ((a p : Bytes) → c.x25519_public a ≡ ok p → length p ≡ 32)
    × ((a b p q : Bytes)
        → c.x25519_public a ≡ ok p
        → c.x25519_public b ≡ ok q
        → c.x25519 a q ≡ c.x25519 b p)

-- X25519 gives a secret, not the refusal of a public key of low order.
abbrev pub Meets : Curve → Bytes → Bytes → Type 0
Meets c private_key public_key = (shared : Bytes) × (c.x25519 private_key public_key ≡ ok shared)

-- The own keys of the side that writes and of the side that reads, and their ephemeral public keys.
abbrev pub Sides : Curve → Keys → Keys → Bytes → Bytes → Type 0
Sides c w r we re =
    (c.x25519_public w.local_static ≡ ok w.local_public)
    × (c.x25519_public w.ephemeral ≡ ok we)
    × (c.x25519_public r.local_static ≡ ok r.local_public)
    × (c.x25519_public r.ephemeral ≡ ok re)
    × Meets c w.ephemeral re
    × Meets c w.ephemeral r.local_public
    × Meets c w.local_static re
    × Meets c w.local_static r.local_public
    × (w.psk ≡ r.psk)
    × (w.has_pin ≡ true → w.pin ≡ r.local_public)
    × (r.has_pin ≡ true → r.pin ≡ w.local_public)

-- Which public keys of the other side the writer and the reader have.
pub record Known : Type 0 where
  pub w_static : Bool
  pub w_ephemeral : Bool
  pub r_static : Bool
  pub r_ephemeral : Bool

abbrev pub Knows : Known → Keys → Keys → Bytes → Bytes → Type 0
Knows k w r we re =
    (k.w_static ≡ true → w.remote_static ≡ r.local_public)
    × (k.w_ephemeral ≡ true → w.remote_ephemeral ≡ re)
    × (k.r_static ≡ true → r.remote_static ≡ w.local_public)
    × (k.r_ephemeral ≡ true → r.remote_ephemeral ≡ we)

-- What a token asks for, by the role of the writer.
unfoldable pub needs : Token → Bool → Known → Bool
needs token_ee initiator k = k.w_ephemeral && k.r_ephemeral
needs token_es true k = k.w_static && k.r_ephemeral
needs token_es false k = k.w_ephemeral && k.r_static
needs token_se true k = k.w_ephemeral && k.r_static
needs token_se false k = k.w_static && k.r_ephemeral
needs token_ss initiator k = k.w_static && k.r_static
needs _ initiator k = true

-- The two sides mix the same secret.
abbrev pub SameSecret : Curve → Bool → Keys → Keys → Symmetric → Token → Type 0
SameSecret c initiator w r s token =
    (shared : Bytes) × (dh c initiator w s token ≡ ok (mix_key s shared false))
    × (dh c (not initiator) r s token ≡ ok (mix_key s shared false))

mix_shared-ok :
    (c : Curve) (s : Symmetric) (local remote shared : Bytes)
    → c.x25519 local remote ≡ ok shared
    → mix_shared c s (some (local, remote)) ≡ ok (mix_key s shared false)
unfolding mix_shared
mix_shared-ok c s local remote shared h = rw h refl

pub both : (a b : Bool) → (a && b) ≡ true → (a ≡ true) × (b ≡ true)
both a b h = ground arith

module _ (c : Curve) (w r : Keys) (we re : Bytes) (s : Symmetric) (law : IsAgreement c)
    (sides : Sides c w r we re) (k : Known) (known : Knows k w r we re) where
  ephemeral_both :
      (k.w_ephemeral && k.r_ephemeral) ≡ true
      → (shared : Bytes) × (c.x25519 w.ephemeral w.remote_ephemeral ≡ ok shared)
        × (c.x25519 r.ephemeral r.remote_ephemeral ≡ ok shared)
  ephemeral_both h =
      let (x, y) = both k.w_ephemeral k.r_ephemeral h in
      let (shared, e) = sides.4 in
      let there = law.1 w.ephemeral r.ephemeral we re sides.1 sides.3 in
      (shared, rw (known.1 x) e, rw (known.3 y) (sym there ∙ e))

  writer_ephemeral :
      (k.w_static && k.r_ephemeral) ≡ true
      → (shared : Bytes) × (c.x25519 w.ephemeral w.remote_static ≡ ok shared)
        × (c.x25519 r.local_static r.remote_ephemeral ≡ ok shared)
  writer_ephemeral h =
      let (x, y) = both k.w_static k.r_ephemeral h in
      let (shared, e) = sides.5 in
      let there = law.1 w.ephemeral r.local_static we r.local_public sides.1 sides.2 in
      (shared, rw (known.0 x) e, rw (known.3 y) (sym there ∙ e))

  writer_static :
      (k.w_ephemeral && k.r_static) ≡ true
      → (shared : Bytes) × (c.x25519 w.local_static w.remote_ephemeral ≡ ok shared)
        × (c.x25519 r.ephemeral r.remote_static ≡ ok shared)
  writer_static h =
      let (x, y) = both k.w_ephemeral k.r_static h in
      let (shared, e) = sides.6 in
      let there = law.1 w.local_static r.ephemeral w.local_public re sides.0 sides.3 in
      (shared, rw (known.1 x) e, rw (known.2 y) (sym there ∙ e))

  static_both :
      (k.w_static && k.r_static) ≡ true
      → (shared : Bytes) × (c.x25519 w.local_static w.remote_static ≡ ok shared)
        × (c.x25519 r.local_static r.remote_static ≡ ok shared)
  static_both h =
      let (x, y) = both k.w_static k.r_static h in
      let (shared, e) = sides.7 in
      let there =
        law.1 w.local_static r.local_static w.local_public r.local_public sides.0 sides.2 in
      (shared, rw (known.0 x) e, rw (known.2 y) (sym there ∙ e))

  mixed :
      (a b x y : Bytes) (token : Token) (initiator : Bool)
      → dh_keys initiator w token ≡ some (a, b)
      → dh_keys (not initiator) r token ≡ some (x, y)
      → (shared : Bytes) × (c.x25519 a b ≡ ok shared) × (c.x25519 x y ≡ ok shared)
      → SameSecret c initiator w r s token
  unfolding dh
  mixed a b x y token initiator h h' (shared, e, e') =
      (shared, rw h (mix_shared-ok c s a b shared e), rw h' (mix_shared-ok c s x y shared e'))

  pub dh_ee :
      (initiator : Bool) → needs token_ee initiator k ≡ true → SameSecret c initiator w r s token_ee
  unfolding needs dh_keys
  dh_ee initiator h = mixed _ _ _ _ token_ee initiator refl refl (ephemeral_both h)

  pub dh_ss :
      (initiator : Bool) → needs token_ss initiator k ≡ true → SameSecret c initiator w r s token_ss
  unfolding needs dh_keys
  dh_ss initiator h = mixed _ _ _ _ token_ss initiator refl refl (static_both h)

  pub dh_es :
      (initiator : Bool) → needs token_es initiator k ≡ true → SameSecret c initiator w r s token_es
  unfolding needs dh_keys
  dh_es true h = mixed _ _ _ _ token_es true refl refl (writer_ephemeral h)
  dh_es false h = mixed _ _ _ _ token_es false refl refl (writer_static h)

  pub dh_se :
      (initiator : Bool) → needs token_se initiator k ≡ true → SameSecret c initiator w r s token_se
  unfolding needs dh_keys
  dh_se true h = mixed _ _ _ _ token_se true refl refl (writer_static h)
  dh_se false h = mixed _ _ _ _ token_se false refl refl (writer_ephemeral h)
