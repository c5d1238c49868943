-- ===== src/Noise/Establish.antt =====
-- src/noise.c: two sides that thalovant_noise_init sets up for each other come to a session.
use thalovant_embedded_c.Base.{
  ℕ, ◌≤◌, Bool, true, false, Option, none, some, [], ◌∷◌, ◌≡◌, refl, sym, ◌∙◌, inl, inr, Bytes,
  length, ◌==◌, ok, arith, Bool-cases,
}
use thalovant_embedded_c.Noise.{Curve, Keys, Noise, noise_xx, noise_kk, zero_state, mix_hash}
use thalovant_embedded_c.Noise.Handshake.{noise_init, pinned, first_symmetric}
use thalovant_embedded_c.Noise.Agreement.{IsAgreement, Sides, Meets}
use thalovant_embedded_c.Noise.Tokens.{IsFresh}
use thalovant_embedded_c.Noise.Completion.{exchange, own_keys, noise_init-state}
use thalovant_embedded_c.Noise.Patterns.{Completes, xx_first, kk_first}

-- What pinning leaves, and what it adds.
own_keys-own :
    (pattern : ℕ) (psk s p e : Bytes) (pin : Option Bytes)
    → let k = own_keys pattern psk s p e pin in
      (k.local_static ≡ s) × (k.local_public ≡ p) × (k.ephemeral ≡ e) × (k.psk ≡ psk)
unfolding pinned
own_keys-own pattern psk s p e none = (refl, refl, refl, refl)
own_keys-own pattern psk s p e (some pin) = (refl, refl, refl, refl)

-- A pin, where there is one, is the public key of the other side.
abbrev pub Pins : Option Bytes → Bytes → Type 0
Pins none key = Unit
Pins (some pin) key = pin ≡ key

own_keys-pin :
    (pattern : ℕ) (psk s p e key : Bytes) (pin : Option Bytes)
    → Pins pin key
    → (own_keys pattern psk s p e pin).has_pin ≡ true
    → (own_keys pattern psk s p e pin).pin ≡ key
unfolding pinned zero_state
own_keys-pin pattern psk s p e key none h g = cc
own_keys-pin pattern psk s p e key (some pin) h g = h

own_keys-remote :
    (psk s p e key : Bytes) (pin : Option Bytes)
    → pin ≡ some key
    → (own_keys noise_kk psk s p e pin).remote_static ≡ key
unfolding pinned
own_keys-remote psk s p e key pin h = rw h refl

first_symmetric-same :
    (pattern : ℕ) (prologue : Bytes) (ki kr : Keys)
    → ((pattern == noise_kk) ≡ true
        → (kr.remote_static ≡ ki.local_public) × (ki.remote_static ≡ kr.local_public))
    → first_symmetric pattern true prologue ki ≡ first_symmetric pattern false prologue kr
unfolding first_symmetric
first_symmetric-same pattern prologue ki kr h = elim (Bool-cases (pattern == noise_kk)) [
  | inl e ↦ let (a, b) = h e in rw (e, a, b) refl
  | inr e ↦ rw e refl
]

first_symmetric-IsFresh :
    (pattern : ℕ) (initiator : Bool) (prologue : Bytes) (k : Keys)
    → IsFresh 0 (first_symmetric pattern initiator prologue k)
unfolding first_symmetric mix_hash
first_symmetric-IsFresh pattern initiator prologue k = elim (Bool-cases (pattern == noise_kk)) [
  | inl e ↦ rw e (λ h. cc, omega arith)
  | inr e ↦ rw e (λ h. cc, omega arith)
]

module _ (c : Curve) (law : IsAgreement c) (psk prologue si ei sr er psi pei psr per : Bytes)
    (pin_i pin_r : Option Bytes) (si_pub : c.x25519_public si ≡ ok psi)
    (ei_pub : c.x25519_public ei ≡ ok pei) (sr_pub : c.x25519_public sr ≡ ok psr)
    (er_pub : c.x25519_public er ≡ ok per) (ee : Meets c ei per) (es : Meets c ei psr)
    (se : Meets c si per) (ss : Meets c si psr) (pinned_i : Pins pin_i psr)
    (pinned_r : Pins pin_r psi) where
  abbrev ki : ℕ → Keys
  ki pattern = own_keys pattern psk si psi ei pin_i

  abbrev kr : ℕ → Keys
  kr pattern = own_keys pattern psk sr psr er pin_r

  own_sides : (pattern : ℕ) → Sides c (ki pattern) (kr pattern) pei per
  own_sides pattern =
      let (a0, a1, a2, a3) = own_keys-own pattern psk si psi ei pin_i in
      let (b0, b1, b2, b3) = own_keys-own pattern psk sr psr er pin_r in
      (
        rw (a0, a1) si_pub,
        rw a2 ei_pub,
        rw (b0, b1) sr_pub,
        rw b2 er_pub,
        rw a2 ee,
        rw (a2, b1) es,
        rw a0 se,
        rw (a0, b1) ss,
        a3 ∙ sym b3,
        λ h. own_keys-pin pattern psk si psi ei psr pin_i pinned_i h ∙ sym b1,
        λ h. own_keys-pin pattern psk sr psr er psi pin_r pinned_r h ∙ sym a1,
      )

  -- Both sides call `noise_init` for XX with one pre-shared key and one prologue, with private keys of
  -- which `c.x25519_public` gives the public ones, and with the other side's static public key as pin
  -- or with none; `c` obeys the laws of key agreement and refuses none of the four shared secrets.
  -- Then for payloads of at most 65439 bytes the three messages succeed, each payload is given to the
  -- other side, and the two sides end open, in step in both directions, with each other's static key.
  pub xx-Completes :
      (i r : Noise) (p q t : Bytes)
      → noise_init c true noise_xx true psk prologue si ei pin_i ≡ (i, ok tt)
      → noise_init c true noise_xx false psk prologue sr er pin_r ≡ (r, ok tt)
      → length p ≤ 65439
      → length q ≤ 65439
      → length t ≤ 65439
      → (a b : Noise) × (exchange c (p ∷ q ∷ t ∷ []) i r ≡ ok (b, a, p ∷ q ∷ t ∷ []))
        × Completes a b psi psr
  xx-Completes i r p q t hi hr lp lq lt =
      let s = first_symmetric 1 true prologue (ki 1) in
      let (a, b, done, ends) =
        xx_first c law (ki 1) (kr 1) pei per s p q t (own_sides 1)
          (first_symmetric-IsFresh 1 true prologue (ki 1)) lp lq lt in
      let i_is = noise_init-state c 1 true psk prologue si ei psi pin_i i si_pub hi in
      let r_is = noise_init-state c 1 false psk prologue sr er psr pin_r r sr_pub hr in
      let same = first_symmetric-same 1 prologue (ki 1) (kr 1) (λ e. cc) in
      let own_i = (own_keys-own 1 psk si psi ei pin_i).1 in
      let own_r = (own_keys-own 1 psk sr psr er pin_r).1 in
      (a, b, rw (i_is, r_is, sym same) done, (ends.0, ends.1, ends.2 ∙ own_r, ends.3 ∙ own_i))

  -- Both sides call `noise_init` for KK with one pre-shared key and one prologue, with private keys of
  -- which `c.x25519_public` gives the public ones, and with the other side's static public key as
  -- pin; `c` obeys the laws of key agreement and refuses none of the four shared secrets. Then for
  -- payloads of at most 65439 bytes the two messages succeed, each payload is given to the other
  -- side, and the two sides end open, in step in both directions, with each other's static key.
  pub kk-Completes :
      (i r : Noise) (p q : Bytes)
      → noise_init c true noise_kk true psk prologue si ei pin_i ≡ (i, ok tt)
      → noise_init c true noise_kk false psk prologue sr er pin_r ≡ (r, ok tt)
      → pin_i ≡ some psr
      → pin_r ≡ some psi
      → length p ≤ 65439
      → length q ≤ 65439
      → (a b : Noise) × (exchange c (p ∷ q ∷ []) i r ≡ ok (a, b, p ∷ q ∷ []))
        × Completes a b psi psr
  kk-Completes i r p q hi hr pi pr lp lq =
      let s = first_symmetric 2 true prologue (ki 2) in
      let own_i = (own_keys-own 2 psk si psi ei pin_i).1 in
      let own_r = (own_keys-own 2 psk sr psr er pin_r).1 in
      let w_knows = own_keys-remote psk si psi ei psr pin_i pi ∙ sym own_r in
      let r_knows = own_keys-remote psk sr psr er psi pin_r pr ∙ sym own_i in
      let (a, b, done, ends) =
        kk_first c law (ki 2) (kr 2) pei per s p q (own_sides 2) w_knows r_knows
          (first_symmetric-IsFresh 2 true prologue (ki 2)) lp lq in
      let i_is = noise_init-state c 2 true psk prologue si ei psi pin_i i si_pub hi in
      let r_is = noise_init-state c 2 false psk prologue sr er psr pin_r r sr_pub hr in
      let same = first_symmetric-same 2 prologue (ki 2) (kr 2) (λ e. (r_knows, w_knows)) in
      (a, b, rw (i_is, r_is, sym same) done, (ends.0, ends.1, ends.2 ∙ own_r, ends.3 ∙ own_i))
