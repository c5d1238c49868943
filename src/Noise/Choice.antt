-- ===== src/Noise/Choice.antt =====
-- src/noise.c, thalovant_noise_select: the pattern that is chosen from what the hub advertises.
use thalovant_embedded_c.Base.{
  ℕ, Bool, true, false, not, ◌&&◌, ◌||◌, Option, none, some, List, [], ◌∷◌, ◌≡◌, refl, ◌⊎◌, inl,
  inr, ◌↔◌, Bytes, codes, ok, unsupported, arith, Bool-cases, beq, beq_iff, fail_if-eq-ok,
}
use thalovant_embedded_c.Noise.{noise_xx, noise_kk}
use thalovant_embedded_c.Noise.Transport.{offers, chosen_pattern, noise_select}

-- The text is one of the strings advertised.
abbrev pub Among : Bytes → List (Option Bytes) → Type 0
Among name [] = ⊥
Among name (none ∷ rest) = Among name rest
Among name (some text ∷ rest) = (text ≡ name) ⊎ Among name rest

either : (a b : Bool) → (a || b) ≡ true → (a ≡ true) ⊎ (b ≡ true)
either true b h = inl refl
either false b h = inr h

either_false : (a b : Bool) → (a && b) ≡ false → (a ≡ false) ⊎ (b ≡ false)
either_false true b h = inr h
either_false false b h = inl refl

offers-Among :
    (name : Bytes) (list : List (Option Bytes)) → (offers name list ≡ true) ↔ Among name list
unfolding offers
offers-Among name [] = (λ h. cc, λ h. absurd h)
offers-Among name (none ∷ rest) = offers-Among name rest
offers-Among name (some text ∷ rest) = (
  λ h. elim (either (beq text name) (offers name rest) h) [
    | inl e ↦ inl ((beq_iff text name).0 e)
    | inr e ↦ inr ((offers-Among name rest).0 e)
  ],
  λ h. elim h [
    | inl e ↦ rw ((beq_iff text name).1 e) refl
    | inr e ↦ elim (Bool-cases (beq text name)) [
      | inl t ↦ rw t refl
      | inr t ↦ rw t ((offers-Among name rest).1 e)
    ]
  ],
)

chosen_of :
    (pinned_kk xx : Bool) (p : ℕ)
    → chosen_pattern pinned_kk xx ≡ ok p
    → (p ≡ noise_kk) × (pinned_kk ≡ true) ⊎ (p ≡ noise_xx) × (pinned_kk ≡ false) × (xx ≡ true)
unfolding chosen_pattern
chosen_of true xx p h = inl (cc, refl)
chosen_of false true p h = inr (cc, refl, refl)
chosen_of false false p h = cc

-- A pattern is chosen only where the hub advertises the suite: KK where there is a pin and the hub
-- advertises it, and XX where the hub advertises that one and KK is not to be had.
pub noise_select-advertised :
    (patterns suites : List (Option Bytes)) (has_pin : Bool) (p : ℕ)
    → noise_select true patterns suites has_pin ≡ ok p
    → Among (codes "25519_AESGCM_SHA256") suites
      × ((p ≡ noise_kk) × (has_pin ≡ true) × Among (codes "KKpsk0") patterns
          ⊎ (p ≡ noise_xx)
            × ((has_pin ≡ false) ⊎ ¬ Among (codes "KKpsk0") patterns)
            × Among (codes "XXpsk2") patterns)
unfolding noise_select
noise_select-advertised patterns suites has_pin p h =
    let kk = offers (codes "KKpsk0") patterns in
    let (suite, rest) =
      fail_if-eq-ok (not (offers (codes "25519_AESGCM_SHA256") suites)) unsupported _ h in
    let listed = (offers-Among (codes "25519_AESGCM_SHA256") suites).0 (ground arith) in
    (
      listed,
      elim (chosen_of (has_pin && kk) (offers (codes "XXpsk2") patterns) p rest) [
        | inl (e, both) ↦
            inl (e, ground arith, (offers-Among (codes "KKpsk0") patterns).0 (ground arith))
        | inr (e, neither, xx) ↦ inr (
          e,
          elim (either_false has_pin kk neither) [
            | inl no_pin ↦ inl no_pin
            | inr no_kk ↦
                inr (λ among. let offered = (offers-Among (codes "KKpsk0") patterns).1 among in cc)
          ],
          (offers-Among (codes "XXpsk2") patterns).0 xx,
        )
      ],
    )
