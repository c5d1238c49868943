-- ===== src/Noise/Tokens.antt =====
-- src/noise.c: the reader of a message takes token after token to the state the writer took it to.
use thalovant_embedded_c.Base.{
  ℕ, ◌+◌, ◌≤◌, ◌<◌, Bool, true, false, not, ◌&&◌, List, [], ◌∷◌, ◌++◌, append_assoc, ◌≡◌, refl, sym,
  ap, ◌∙◌, inl, inr, Bytes, length, length-append, take-append, drop-append, ltb, ◌==◌, ok, ◌>>=◌,
  arith, Bool-cases,
}
use thalovant_embedded_c.AesGcm.Gcm.{ct_compare}
use thalovant_embedded_c.AesGcm.Sealing.{ct_compare_iff}
use thalovant_embedded_c.Noise.{
  Curve, Symmetric, Keys, Token, uint64_max, mix_key, mix_hash, digest_pair, tag_size, encrypt_hash,
  decrypt_hash, token_e, token_s, token_ee, token_es, token_se, token_ss, token_psk,
}
use thalovant_embedded_c.Noise.Sizes.{IsKeyed, mix_key-IsKeyed}
use thalovant_embedded_c.Noise.Sealing.{seal_ok, unseal_iff_seal}
use thalovant_embedded_c.Noise.Handshake.{
  dh, cut, write_token, write_tokens, read_token, read_tokens,
}
use thalovant_embedded_c.Noise.Agreement.{
  IsAgreement, Sides, Known, Knows, needs, both, SameSecret, dh_ee, dh_ss, dh_es, dh_se,
}

-- The symmetric state at which a message may go on: a key of 32 bytes, if any, far from its last nonce.
abbrev pub IsFresh : ℕ → Symmetric → Type 0
IsFresh n s = IsKeyed s × (s.nonce ≤ n)

-- What is encrypted into the hash at one side decrypts to it at the other, which then has the same state.
pub decrypt_hash-encrypt_hash :
    (n : ℕ) (s : Symmetric) (p : Bytes)
    → IsFresh n s
    → n < uint64_max
    → (next : Symmetric) × (out : Bytes) × (encrypt_hash s p ≡ ok (next, out))
      × (decrypt_hash s out ≡ ok (next, p))
      × (length out ≡ length p + tag_size s)
      × IsFresh (n + 1) next
unfolding encrypt_hash decrypt_hash mix_hash tag_size
decrypt_hash-encrypt_hash n s p (keyed, low) h = elim (Bool-cases s.has_key) [
  | inl e ↦
      let (out, made, size) = seal_ok s.key s.nonce s.hash p (keyed e) (omega arith) in
      let opened = (unseal_iff_seal s.key s.nonce s.hash p out (s.nonce + 1) (keyed e)).1 made in
      let next : Symmetric = record s { nonce = s.nonce + 1; hash = digest_pair s.hash out } in
      (next, out, rw (e, made) refl, rw (e, opened) refl, rw e size, (keyed, omega arith))
  | inr e ↦
      let next : Symmetric = record s { hash = digest_pair s.hash p } in
      (next, p, rw e refl, rw e refl, rw e (omega arith), (keyed, omega arith))
]

mix_key-IsFresh :
    (n : ℕ) (s : Symmetric) (input : Bytes) (and_hash : Bool) → IsFresh n (mix_key s input and_hash)
unfolding mix_key
mix_key-IsFresh n s input and_hash = (λ e. mix_key-IsKeyed s input and_hash, omega arith)

unfoldable pub learn : Token → Known → Known
learn token_e k = record k { r_ephemeral = true }
learn token_s k = record k { r_static = true }
learn _ k = k

-- The most bytes that a token puts into a message.
unfoldable pub token_size : Token → ℕ
token_size token_e = 32
token_size token_s = 48
token_size _ = 0

pub tag_size-short : (s : Symmetric) → tag_size s ≤ 16
unfolding tag_size
tag_size-short s = ground arith

cut-append : (a b : Bytes) (n : ℕ) → length a ≡ n → cut n (a ++ b) ≡ ok (a, b)
unfolding cut
cut-append a b n h =
    let whole = length-append a b in
    let early : ltb (length (a ++ b)) n ≡ false = ground arith in
    rw early (rw (sym h, take-append a b, drop-append a b) refl)

module _ (c : Curve) (law : IsAgreement c) where
  -- What one token comes to on both sides.
  abbrev pub Taken : Bool → Keys → Keys → Bytes → Bytes → ℕ → Symmetric → Token → Known → Type 0
  Taken initiator w r we re n s token k =
      (next : Symmetric) × (head : Bytes) × (r' : Keys) × (write_token c initiator w s token
        ≡ ok (next, head))
      × ((rest : Bytes)
          → read_token c (not initiator) r s token (head ++ rest) ≡ ok (r', next, rest))
      × (length head ≤ token_size token)
      × IsFresh (n + 1) next
      × Sides c w r' we re
      × Knows (learn token k) w r' we re
      × (r'.local_public ≡ r.local_public)

  module _ (w r : Keys) (we re : Bytes) (n : ℕ) (s : Symmetric) (sides : Sides c w r we re)
      (k : Known) (known : Knows k w r we re) (fresh : IsFresh n s) (low : n < uint64_max) where
    take_e : (initiator : Bool) → Taken initiator w r we re n s token_e k
    unfolding write_token read_token token_size learn
    take_e initiator =
        let r' : Keys = record r { remote_ephemeral = we } in
        let size : length we ≡ 32 = law.0 w.ephemeral we sides.1 in
        let next = mix_key (mix_hash s we) we false in
        (
          next,
          we,
          r',
          rw sides.1 refl,
          λ rest. rw (cut-append we rest 32 size) refl,
          omega arith,
          mix_key-IsFresh (n + 1) (mix_hash s we) we false,
          sides,
          (known.0, known.1, known.2, λ h. refl),
          refl,
        )

    take_psk : (initiator : Bool) → Taken initiator w r we re n s token_psk k
    unfolding write_token read_token token_size learn
    take_psk initiator = (
      mix_key s w.psk true,
      [],
      r,
      refl,
      λ rest. rw sides.8 refl,
      omega arith,
      mix_key-IsFresh (n + 1) s w.psk true,
      sides,
      known,
      refl,
    )

    pin_held : (r.has_pin && not (ct_compare r.pin w.local_public == 0)) ≡ false
    pin_held = elim (Bool-cases r.has_pin) [
      | inl e ↦
          let same : r.pin ≡ w.local_public = sides.10 e in
          let zero_diff : ct_compare r.pin w.local_public ≡ 0 =
            (ct_compare_iff r.pin w.local_public (ap length same)).1 same in
          rw (e, zero_diff) refl
      | inr e ↦ rw e refl
    ]

    take_s : (initiator : Bool) → Taken initiator w r we re n s token_s k
    unfolding write_token read_token token_size learn
    take_s initiator =
        let r' : Keys = record r { remote_static = w.local_public } in
        let size : length w.local_public ≡ 32 = law.0 w.local_static w.local_public sides.0 in
        let (next, out, made, opened, whole, fresh') =
          decrypt_hash-encrypt_hash n s w.local_public fresh low in
        let short = tag_size-short s in
        (
          next,
          out,
          r',
          made,
          λ rest. rw (cut-append out rest (32 + tag_size s) (omega arith), opened, pin_held) refl,
          omega arith,
          fresh',
          sides,
          (known.0, known.1, λ h. refl, known.3),
          refl,
        )

    take_dh :
        (initiator : Bool) (token : Token)
        → ((rest : Bytes)
            → write_token c initiator w s token
              ≡ (dh c initiator w s token >>= λ mixed. ok (mixed, [])))
        → ((rest : Bytes)
            → read_token c (not initiator) r s token rest
              ≡ (dh c (not initiator) r s token >>= λ mixed. ok (r, mixed, rest)))
        → learn token k ≡ k
        → SameSecret c initiator w r s token
        → Taken initiator w r we re n s token k
    take_dh initiator token wrote read same_known (shared, e, e') = (
      mix_key s shared false,
      [],
      r,
      wrote [] ∙ rw e refl,
      λ rest. read rest ∙ rw e' refl,
      omega arith,
      mix_key-IsFresh (n + 1) s shared false,
      sides,
      rw same_known known,
      refl,
    )

    take_token :
        (initiator : Bool) (token : Token)
        → needs token initiator k ≡ true
        → Taken initiator w r we re n s token k
    unfolding write_token read_token learn
    take_token initiator token_e h = take_e initiator
    take_token initiator token_s h = take_s initiator
    take_token initiator token_psk h = take_psk initiator
    take_token initiator token_ee h =
        take_dh initiator token_ee (λ rest. refl) (λ rest. refl) refl
          (dh_ee c w r we re s law sides k known initiator h)
    take_token initiator token_es h =
        take_dh initiator token_es (λ rest. refl) (λ rest. refl) refl
          (dh_es c w r we re s law sides k known initiator h)
    take_token initiator token_se h =
        take_dh initiator token_se (λ rest. refl) (λ rest. refl) refl
          (dh_se c w r we re s law sides k known initiator h)
    take_token initiator token_ss h =
        take_dh initiator token_ss (λ rest. refl) (λ rest. refl) refl
          (dh_ss c w r we re s law sides k known initiator h)

-- The tokens of a message in order: what each of them needs is known when it comes.
unfoldable pub allowed : List Token → Bool → Known → Bool
allowed [] initiator k = true
allowed (token ∷ tokens) initiator k =
    needs token initiator k && allowed tokens initiator (learn token k)

unfoldable pub learn_all : List Token → Known → Known
learn_all [] k = k
learn_all (token ∷ tokens) k = learn_all tokens (learn token k)

unfoldable pub tokens_size : List Token → ℕ
tokens_size [] = 0
tokens_size (token ∷ tokens) = token_size token + tokens_size tokens

abbrev pub AllTaken :
    Curve → Bool → Keys → Keys → Bytes → Bytes → ℕ → Symmetric → List Token → Known → Type 0
AllTaken c initiator w r we re n s tokens k =
    (next : Symmetric) × (head : Bytes) × (r' : Keys) × (write_tokens c initiator w tokens s
      ≡ ok (next, head))
    × ((rest : Bytes)
        → read_tokens c (not initiator) tokens r s (head ++ rest) ≡ ok (r', next, rest))
    × (length head ≤ tokens_size tokens)
    × IsFresh (n + length tokens) next
    × Sides c w r' we re
    × Knows (learn_all tokens k) w r' we re
    × (r'.local_public ≡ r.local_public)

pub take_tokens :
    (c : Curve) (initiator : Bool) (w r : Keys) (we re : Bytes) (n : ℕ) (s : Symmetric)
    (tokens : List Token) (k : Known)
    → IsAgreement c
    → Sides c w r we re
    → Knows k w r we re
    → IsFresh n s
    → n + length tokens < uint64_max
    → allowed tokens initiator k ≡ true
    → AllTaken c initiator w r we re n s tokens k
unfolding allowed learn_all tokens_size write_tokens read_tokens
take_tokens c initiator w r we re n s [] k law sides known (keyed, low) room h =
    (s, [], r, refl, λ rest. refl, omega arith, (keyed, omega arith), sides, known, refl)
take_tokens c initiator w r we re n s (token ∷ tokens) k law sides known fresh room h =
    let (first, others) =
      both (needs token initiator k) (allowed tokens initiator (learn token k)) h in
    let (s1, head, r1, wrote, read, size, fresh1, sides1, known1, own1) =
      take_token c law w r we re n s sides k known fresh (omega arith) initiator token first in
    let (s2, tail, r2, wrote2, read2, size2, fresh2, sides2, known2, own2) =
      take_tokens c initiator w r1 we re (n + 1) s1 tokens (learn token k) law sides1 known1 fresh1
        (omega arith) others in
    (
      s2,
      head ++ tail,
      r2,
      rw (wrote, wrote2) refl,
      λ rest. rw (append_assoc head tail rest, read (tail ++ rest)) (read2 rest),
      omega (arith, length-append head tail),
      (fresh2.0, omega arith),
      sides2,
      known2,
      own2 ∙ own1,
    )
