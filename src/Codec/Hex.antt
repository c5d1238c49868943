-- ===== src/Codec/Hex.antt =====
-- src/codec.c: what the hexadecimal encoder and decoder promise.
use thalovant_embedded_c.Base.{
  ℕ, ◌-◌, ◌*◌, ◌/◌, ◌%◌, ◌^◌, ◌≤◌, ◌<◌, Bool, true, false, Option, none, some, [], ◌∷◌, ◌≡◌, refl,
  ap, ◌∙◌, ◌≢◌, bit_or, Bytes, IsByte, length, All, get_or, int_max, ◌==◌, Result, ok, err, stuck,
  ◌>>=◌, arith, all_below, all_below→eq,
}
use thalovant_embedded_c.Base.Bits.{bit_and_mask, bit_or_join}
use thalovant_embedded_c.Codec.{
  hex_digits, hex_chars, hex_encode, hex_nibble, digit_or, hex_pairs, hex_decode,
}

nibble_is : Option ℕ → ℕ → Bool
nibble_is none n = false
nibble_is (some m) n = m == n

nibble_is→eq : (o : Option ℕ) (n : ℕ) → nibble_is o n ≡ true → o ≡ some n
unfolding nibble_is
nibble_is→eq none n h = cc
nibble_is→eq (some m) n h = ground arith

digit_table : all_below 16 (λ n. nibble_is (hex_nibble (get_or hex_digits n 0)) n) ≡ true
unfolding all_below hex_nibble nibble_is
digit_table = refl

hex_nibble-digit : (n : ℕ) → n < 16 → hex_nibble (get_or hex_digits n 0) ≡ some n
hex_nibble-digit n h = nibble_is→eq _ n (all_below→eq 16 _ digit_table n h)

join_nibbles : (b : ℕ) → IsByte b → bit_or (b / 2 ^ 4 * 2 ^ 4) (b % 16) % 256 ≡ b
join_nibbles b h = omega (arith, bit_or_join 4 4 (b / 2 ^ 4) (b % 16) (omega arith) (omega arith))

hex_pairs-chars : (bs : Bytes) → All IsByte bs → hex_pairs (hex_chars bs) ≡ ok bs
unfolding hex_pairs hex_chars
hex_pairs-chars [] h = refl
hex_pairs-chars (b ∷ bs) (hb, hbs) =
    rw
      (
        bit_and_mask 4 b,
        hex_nibble-digit (b / 2 ^ 4) (omega arith),
        hex_nibble-digit (b % 16) (omega arith),
        hex_pairs-chars bs hbs,
      )
      (ap (λ x. ok (x ∷ bs)) (join_nibbles b hb))

length-hex_chars : (bs : Bytes) → length (hex_chars bs) ≡ 2 * length bs
unfolding hex_chars
length-hex_chars [] = refl
length-hex_chars (b ∷ bs) = omega (arith, length-hex_chars bs)

-- A successful encoding fits its buffer with the terminator, has two characters for each byte, and
-- its length fits an int.
hex_encode_bounds :
    (bs : Bytes) (room : ℕ) (s : Bytes)
    → hex_encode (some bs) (some room) ≡ ok s
    → (length s ≡ 2 * length bs) × (length s < room) × (length s ≤ int_max)
unfolding hex_encode
hex_encode_bounds bs room s h = ground (arith, length-hex_chars bs)

hex_encode-eq-ok :
    (bs : Bytes) (room : ℕ) (s : Bytes)
    → hex_encode (some bs) (some room) ≡ ok s
    → (hex_chars bs ≡ s) × (length bs ≤ int_max / 2)
unfolding hex_encode
hex_encode-eq-ok bs room s h = ground arith

hex_decode_fits :
    (s : Bytes) (n size : ℕ)
    → length s ≡ 2 * n
    → n ≤ int_max / 2
    → n ≤ size
    → hex_decode (some s) (some size) ≡ hex_pairs s
unfolding hex_decode
hex_decode_fits s n size e h g = ground arith

-- Decoding what bytes were encoded to, in a buffer that held the encoding, gives the bytes back in
-- every buffer that holds them.
pub hex_decode-encode :
    (bs : Bytes) (room size : ℕ) (s : Bytes)
    → All IsByte bs
    → hex_encode (some bs) (some room) ≡ ok s
    → length bs ≤ size
    → hex_decode (some s) (some size) ≡ ok bs
hex_decode-encode bs room size s hb h fits =
    let (e, small) = hex_encode-eq-ok bs room s h in
    rw (← e) (
      hex_decode_fits (hex_chars bs) (length bs) size (length-hex_chars bs) small fits
      ∙ hex_pairs-chars bs hb)

-- A round of the decoder's loop that succeeds puts one byte in front of the rest.
digit_pair-eq-ok :
    (hi lo : Option ℕ) (r : Result Bytes) (out : Bytes)
    → digit_or hi (λ x. digit_or lo (λ y. r >>= λ o. ok ((bit_or (x * 2 ^ 4) y % 256) ∷ o)))
      ≡ ok out
    → (b : ℕ) × (rest : Bytes) × (r ≡ ok rest)
      × (out ≡ b ∷ rest)
      × (b < 256)
      × (hi ≢ none)
      × (lo ≢ none)
digit_pair-eq-ok none lo r out h = cc
digit_pair-eq-ok (some x) none r out h = cc
digit_pair-eq-ok (some x) (some y) (ok o) out h =
    (bit_or (x * 2 ^ 4) y % 256, o, refl, ground arith, omega arith, λ e. cc, λ e. cc)
digit_pair-eq-ok (some x) (some y) (err e) out h = cc
digit_pair-eq-ok (some x) (some y) stuck out h = cc

hex_pairs-eq-ok :
    (s out : Bytes) (n : ℕ)
    → hex_pairs s ≡ ok out
    → length s ≡ 2 * n
    → (length out ≡ n) × All IsByte out × All (λ c. hex_nibble c ≢ none) s
unfolding hex_pairs
hex_pairs-eq-ok [] out n h e = ground arith
hex_pairs-eq-ok (c ∷ []) out n h e = absurd (omega arith)
hex_pairs-eq-ok (c ∷ d ∷ s) out n h e =
    let (b, rest, r, o, small, hi, lo) =
      digit_pair-eq-ok (hex_nibble c) (hex_nibble d) (hex_pairs s) out h in
    let (len, bytes, digits) = hex_pairs-eq-ok s rest (n - 1) r (omega arith) in
    rw o (omega arith, (small, bytes), (hi, (lo, digits)))

-- An input is decoded only if it is a whole number of pairs of hexadecimal digits. The result has
-- one byte for each pair, and these fit the buffer.
pub hex_decode_sound :
    (s : Bytes) (size : ℕ) (out : Bytes)
    → hex_decode (some s) (some size) ≡ ok out
    → (length s ≡ 2 * length out)
      × (length out ≤ size)
      × All IsByte out
      × All (λ c. hex_nibble c ≢ none) s
hex_decode_sound s size out h =
    let (e, fits, run) = unpack in
    let (len, bytes, digits) = hex_pairs-eq-ok s out (length s / 2) run e in
    (omega arith, omega arith, bytes, digits)
  where
    unpack : (length s ≡ 2 * (length s / 2)) × (length s / 2 ≤ size) × (hex_pairs s ≡ ok out)
    unpack = unfold hex_decode in (ground arith, ground arith, ground arith)
