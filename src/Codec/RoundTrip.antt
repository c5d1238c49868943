-- ===== src/Codec/RoundTrip.antt =====
-- src/codec.c: Base64 as a whole, its padding, its lengths and its round trip.
use thalovant_embedded_c.Base.{
  ℕ, ◌+◌, ◌-◌, ◌*◌, ◌/◌, ◌%◌, ◌≤◌, ◌<◌, true, not, some, [], ◌∷◌, ◌≡◌, refl, ◌∙◌, Bytes, IsByte,
  length, length-append, All, get_or, int_max, ◌==◌, ok, arith, all, all_below, all_below→eq,
  trim_end, trim_end-append,
}
use thalovant_embedded_c.Codec.{b64_digits, b64_chars, base64_encode, b64_bytes, base64_decode}
use thalovant_embedded_c.Codec.Base64.{b64_body, b64_pad, b64_chars-body, b64_bytes-body}

no_pad_table : all_below 64 (λ n. not (get_or b64_digits n 0 == b'=')) ≡ true
unfolding all_below
no_pad_table = refl

no_pad : (n : ℕ) → n < 64 → not (get_or b64_digits n 0 == b'=') ≡ true
no_pad n h = all_below→eq 64 _ no_pad_table n h

body_has_no_pad : (bs : Bytes) → All IsByte bs → all (λ c. not (c == b'=')) (b64_body bs) ≡ true
unfolding b64_body
body_has_no_pad (a ∷ b ∷ c ∷ bs) (ha, (hb, (hc, hbs))) = rw (
  no_pad (a / 4) (omega arith),
  no_pad (a % 4 * 16 + b / 16) (omega arith),
  no_pad (b % 16 * 4 + c / 64) (omega arith),
  no_pad (c % 64) (omega arith),
  body_has_no_pad bs hbs,
)
body_has_no_pad (a ∷ b ∷ []) (ha, (hb, _)) = rw (
  no_pad (a / 4) (omega arith),
  no_pad (a % 4 * 16 + b / 16) (omega arith),
  no_pad (b % 16 * 4) (omega arith),
)
body_has_no_pad (a ∷ []) (ha, _) =
    rw (no_pad (a / 4) (omega arith), no_pad (a % 4 * 16) (omega arith))
body_has_no_pad [] h = refl

pad_is_pad : (bs : Bytes) → all (λ c. c == b'=') (b64_pad bs) ≡ true
unfolding b64_pad
pad_is_pad (a ∷ b ∷ c ∷ bs) = pad_is_pad bs
pad_is_pad (a ∷ b ∷ []) = refl
pad_is_pad (a ∷ []) = refl
pad_is_pad [] = refl

-- The lengths of the body and of the padding, by the remainder of the input's length.
body_lengths :
    (bs : Bytes)
    → (length (b64_pad bs) ≡ (3 - length bs % 3) % 3)
      × (length (b64_body bs) + length (b64_pad bs) ≡ (length bs + 2) / 3 * 4)
unfolding b64_body b64_pad
body_lengths (a ∷ b ∷ c ∷ bs) = omega (arith, body_lengths bs)
body_lengths (a ∷ b ∷ []) = omega arith
body_lengths (a ∷ []) = omega arith
body_lengths [] = omega arith

strip_padding :
    (bs : Bytes) → All IsByte bs → trim_end (λ c. c == b'=') (b64_chars bs) ≡ b64_body bs
strip_padding bs h =
    rw (b64_chars-body bs h)
      (trim_end-append _ (b64_body bs) (b64_pad bs) (pad_is_pad bs) (body_has_no_pad bs h))

length-b64_chars : (bs : Bytes) → All IsByte bs → length (b64_chars bs) ≡ (length bs + 2) / 3 * 4
length-b64_chars bs h =
    rw (b64_chars-body bs h)
      (omega (arith, length-append (b64_body bs) (b64_pad bs), body_lengths bs))

base64_encode-eq-ok :
    (bs : Bytes) (room : ℕ) (s : Bytes)
    → base64_encode (some bs) (some room) ≡ ok s
    → (b64_chars bs ≡ s) × (length bs ≤ int_max / 4 * 3) × ((length bs + 2) / 3 * 4 < room)
unfolding base64_encode
base64_encode-eq-ok bs room s h = ground arith

-- A successful encoding is four characters for each three bytes begun, and fits its buffer with
-- the terminator; and its length fits an int.
base64_encode_bounds :
    (bs : Bytes) (room : ℕ) (s : Bytes)
    → All IsByte bs
    → base64_encode (some bs) (some room) ≡ ok s
    → (length s ≡ (length bs + 2) / 3 * 4) × (length s < room) × (length s ≤ int_max)
base64_encode_bounds bs room s hb h =
    let (e, small, fits) = base64_encode-eq-ok bs room s h in
    rw (← e) (omega (arith, length-b64_chars bs hb))

-- The decoder's checks, on text whose stripped body is known.
base64_decode-body :
    (s body : Bytes) (size : ℕ)
    → trim_end (λ c. c == b'=') s ≡ body
    → (n : ℕ) → length s ≡ (n + 2) / 3 * 4
    → length s ≡ length body + (3 - n % 3) % 3
    → n ≤ int_max / 4 * 3
    → n ≤ size
    → base64_decode (some s) (some size) ≡ b64_bytes body 0 0
unfolding base64_decode
base64_decode-body s body size e n hs hb small fits = rw e (ground arith)

-- Decoding what bytes were encoded to, in a buffer that held the encoding, gives the bytes back in
-- every buffer that holds them.
pub base64_decode-encode :
    (bs : Bytes) (room size : ℕ) (s : Bytes)
    → All IsByte bs
    → base64_encode (some bs) (some room) ≡ ok s
    → length bs ≤ size
    → base64_decode (some s) (some size) ≡ ok bs
base64_decode-encode bs room size s hb h fits =
    let (e, small, _) = base64_encode-eq-ok bs room s h in
    rw (← e) (
      base64_decode-body (b64_chars bs) (b64_body bs) size (strip_padding bs hb) (length bs)
        (length-b64_chars bs hb) (omega (arith, length-b64_chars bs hb, body_lengths bs)) small fits
      ∙ b64_bytes-body bs 0 hb)
