-- ===== src/Noise/Patterns.antt =====
-- src/noise.c: the handshakes XXpsk2 and KKpsk0 from thalovant_noise_init to the split on both sides.
use thalovant_embedded_c.Base.{
  ◌≤◌, true, false, [], ◌∷◌, ◌≡◌, refl, sym, ◌∙◌, Bytes, length, ok, arith,
}
use thalovant_embedded_c.Noise.{Curve, Symmetric, Keys, Noise, valid_handshake_step, xx, kk}
use thalovant_embedded_c.Noise.Frames.{IsPaired}
use thalovant_embedded_c.Noise.Handshake.{
  noise_write, noise_read, split, last_step, message_tokens, writes_next,
}
use thalovant_embedded_c.Noise.Agreement.{IsAgreement, Sides, Knows, needs}
use thalovant_embedded_c.Noise.Tokens.{IsFresh, allowed, learn, learn_all, token_size, tokens_size}
use thalovant_embedded_c.Noise.Exchange.{state, message}
use thalovant_embedded_c.Noise.Completion.{
  exchange, exchange_turn, split-between, split-IsPaired, swap_Sides,
}

-- What a handshake comes to, by its messages: the payloads were given to the other side, and each of
-- the two sides, the initiator `a` and the responder `b`, sends to where the other receives and has
-- its static key.
abbrev pub Completes : (a b : Noise) (ka kb : Bytes) → Type 0
Completes a b ka kb =
    IsPaired a b × IsPaired b a × (a.keys.remote_static ≡ kb) × (b.keys.remote_static ≡ ka)

module _ (c : Curve) (law : IsAgreement c) where
  -- The initiator writes the last message of XX.
  xx_third :
      (w r : Keys) (we re : Bytes) (s : Symmetric) (p : Bytes)
      → Sides c w r we re
      → Knows
          (record { w_static = true; w_ephemeral = true; r_static = false; r_ephemeral = true })
          w
          r
          we
          re
      → IsFresh 12 s
      → length p ≤ 65439
      → (a b : Noise) × (exchange c (p ∷ []) (state 1 2 true s w) (state 1 2 false s r)
          ≡ ok (b, a, p ∷ []))
        × Completes a b w.local_public r.local_public
  unfolding valid_handshake_step writes_next allowed needs learn learn_all message_tokens xx
      token_size tokens_size last_step exchange
  xx_third w r we re s p sides known fresh short =
      let (s', out, r', wrote, read, fresh', sides', known', own) =
        message c law 1 2 12 true s w r we re
          (record { w_static = true; w_ephemeral = true; r_static = false; r_ephemeral = true })
          (refl, refl, refl, omega arith, omega arith) sides known fresh (omega arith) p short in
      let (paired, paired', a_static, b_static) = split-IsPaired 1 2 s' w r' refl in
      (
        split (state 1 2 true s' w),
        split (state 1 2 false s' r'),
        exchange_turn c p out [] _ _ _ _ _ _ [] wrote read refl,
        (paired, paired', a_static ∙ known.0 refl, b_static ∙ known'.2 refl),
      )

  -- The responder writes.
  xx_second :
      (w r : Keys) (we re : Bytes) (s : Symmetric) (p q : Bytes)
      → Sides c w r we re
      → Knows
          (record { w_static = false; w_ephemeral = true; r_static = false; r_ephemeral = false })
          w
          r
          we
          re
      → IsFresh 6 s
      → length p ≤ 65439
      → length q ≤ 65439
      → (a b : Noise) × (exchange c (p ∷ q ∷ []) (state 1 1 false s w) (state 1 1 true s r)
          ≡ ok (b, a, p ∷ q ∷ []))
        × Completes a b r.local_public w.local_public
  unfolding valid_handshake_step writes_next allowed needs learn learn_all message_tokens xx
      token_size tokens_size last_step
  xx_second w r we re s p q sides known fresh short short' =
      let (s', out, r', wrote, read, fresh', sides', known', own) =
        message c law 1 1 6 false s w r we re
          (record { w_static = false; w_ephemeral = true; r_static = false; r_ephemeral = false })
          (refl, refl, refl, omega arith, omega arith) sides known fresh (omega arith) p short in
      let (a, b, done, ends) =
        xx_third r' w re we s' q (swap_Sides c w r' we re law sides')
          (known'.2, known'.3, known'.0, known'.1) fresh' short' in
      let wrote' : noise_write c true (state 1 1 false s w) p 65535
          ≡ (state 1 2 false s' w, ok out) =
        rw (sym (split-between 1 1 false s' w refl)) wrote in
      let read' : noise_read c true (state 1 1 true s r) out 65535 ≡ (state 1 2 true s' r', ok p) =
        rw (sym (split-between 1 1 true s' r' refl)) read in
      (
        a,
        b,
        exchange_turn c p out (q ∷ []) _ _ _ _ b a (q ∷ []) wrote' read' done,
        (ends.0, ends.1, ends.2, ends.3 ∙ own),
      )

  pub xx_first :
      (w r : Keys) (we re : Bytes) (s : Symmetric) (p q t : Bytes)
      → Sides c w r we re
      → IsFresh 0 s
      → length p ≤ 65439
      → length q ≤ 65439
      → length t ≤ 65439
      → (a b : Noise) × (exchange c (p ∷ q ∷ t ∷ []) (state 1 0 true s w) (state 1 0 false s r)
          ≡ ok (b, a, p ∷ q ∷ t ∷ []))
        × Completes a b w.local_public r.local_public
  unfolding valid_handshake_step writes_next allowed needs learn learn_all message_tokens xx
      token_size tokens_size last_step
  xx_first w r we re s p q t sides fresh short short' short'' =
      let (s', out, r', wrote, read, fresh', sides', known', own) =
        message c law 1 0 0 true s w r we re
          (record { w_static = false; w_ephemeral = false; r_static = false; r_ephemeral = false })
          (refl, refl, refl, omega arith, omega arith) sides (λ e. cc, λ e. cc, λ e. cc, λ e. cc)
          fresh (omega arith) p short in
      let (a, b, done, ends) =
        xx_second r' w re we s' q t (swap_Sides c w r' we re law sides')
          (λ e. cc, known'.3, λ e. cc, λ e. cc) fresh' short' short'' in
      let wrote' : noise_write c true (state 1 0 true s w) p 65535 ≡ (state 1 1 true s' w, ok out) =
        rw (sym (split-between 1 0 true s' w refl)) wrote in
      let read' : noise_read c true (state 1 0 false s r) out 65535
          ≡ (state 1 1 false s' r', ok p) =
        rw (sym (split-between 1 0 false s' r' refl)) read in
      (
        a,
        b,
        exchange_turn c p out (q ∷ t ∷ []) _ _ _ _ b a (q ∷ t ∷ []) wrote' read' done,
        (ends.0, ends.1, ends.2 ∙ own, ends.3),
      )

  -- The responder writes the last message of KK.
  kk_second :
      (w r : Keys) (we re : Bytes) (s : Symmetric) (p : Bytes)
      → Sides c w r we re
      → Knows
          (record { w_static = true; w_ephemeral = true; r_static = true; r_ephemeral = false })
          w
          r
          we
          re
      → IsFresh 6 s
      → length p ≤ 65439
      → (a b : Noise) × (exchange c (p ∷ []) (state 2 1 false s w) (state 2 1 true s r)
          ≡ ok (a, b, p ∷ []))
        × Completes a b r.local_public w.local_public
  unfolding valid_handshake_step writes_next allowed needs learn learn_all message_tokens kk
      token_size tokens_size last_step exchange
  kk_second w r we re s p sides known fresh short =
      let (s', out, r', wrote, read, fresh', sides', known', own) =
        message c law 2 1 6 false s w r we re
          (record { w_static = true; w_ephemeral = true; r_static = true; r_ephemeral = false })
          (refl, refl, refl, omega arith, omega arith) sides known fresh (omega arith) p short in
      let (paired, paired', a_static, b_static) = split-IsPaired 2 1 s' r' w refl in
      (
        split (state 2 1 true s' r'),
        split (state 2 1 false s' w),
        exchange_turn c p out [] _ _ _ _ _ _ [] wrote read refl,
        (paired, paired', a_static ∙ known'.2 refl, b_static ∙ known'.0 refl ∙ own),
      )

  pub kk_first :
      (w r : Keys) (we re : Bytes) (s : Symmetric) (p q : Bytes)
      → Sides c w r we re
      → w.remote_static ≡ r.local_public
      → r.remote_static ≡ w.local_public
      → IsFresh 0 s
      → length p ≤ 65439
      → length q ≤ 65439
      → (a b : Noise) × (exchange c (p ∷ q ∷ []) (state 2 0 true s w) (state 2 0 false s r)
          ≡ ok (a, b, p ∷ q ∷ []))
        × Completes a b w.local_public r.local_public
  unfolding valid_handshake_step writes_next allowed needs learn learn_all message_tokens kk
      token_size tokens_size last_step
  kk_first w r we re s p q sides w_knows r_knows fresh short short' =
      let (s', out, r', wrote, read, fresh', sides', known', own) =
        message c law 2 0 0 true s w r we re
          (record { w_static = true; w_ephemeral = false; r_static = true; r_ephemeral = false })
          (refl, refl, refl, omega arith, omega arith) sides
          (λ e. w_knows, λ e. cc, λ e. r_knows, λ e. cc) fresh (omega arith) p short in
      let (a, b, done, ends) =
        kk_second r' w re we s' q (swap_Sides c w r' we re law sides')
          (known'.2, known'.3, known'.0, λ e. cc) fresh' short' in
      let wrote' : noise_write c true (state 2 0 true s w) p 65535 ≡ (state 2 1 true s' w, ok out) =
        rw (sym (split-between 2 0 true s' w refl)) wrote in
      let read' : noise_read c true (state 2 0 false s r) out 65535
          ≡ (state 2 1 false s' r', ok p) =
        rw (sym (split-between 2 0 false s' r' refl)) read in
      (
        a,
        b,
        exchange_turn c p out (q ∷ []) _ _ _ _ a b (q ∷ []) wrote' read' done,
        (ends.0, ends.1, ends.2 ∙ own, ends.3),
      )
