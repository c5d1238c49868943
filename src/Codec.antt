-- ===== src/Codec.antt =====
-- src/codec.c: hexadecimal and Base64. An input pointer is an optional list of bytes and an output
-- buffer an optional capacity (`none` is NULL); a result holds the bytes written before the
-- terminator, and their number is what the C function returns.
pub mod Hex
pub mod Base64
pub mod RoundTrip
pub mod Bounds
mod Examples
use thalovant_embedded_c.Base.{
  ℕ, ◌+◌, ◌-◌, ◌*◌, ◌/◌, ◌%◌, ◌^◌, not, ◌&&◌, ◌||◌, Option, none, some, [], ◌∷◌, bit_and, bit_or,
  Bytes, codes, length, get_or, int_max, ltb, leb, within, ◌==◌, if◌then◌else◌, Result, ok, err,
  invalid, nomem, ◌>>=◌, ◌>>◌, fail_if, trim_end,
}

abbrev pub hex_digits : Bytes
hex_digits = codes "0123456789abcdef"

abbrev pub b64_digits : Bytes
b64_digits = codes "ABCDEFGHIJKLMNOPQRSTUVWXYZabcdefghijklmnopqrstuvwxyz0123456789+/"

pub hex_chars : Bytes → Bytes
hex_chars [] = []
hex_chars (b ∷ bs) =
    get_or hex_digits (b / 2 ^ 4) 0 ∷ get_or hex_digits (bit_and b 0x0f) 0 ∷ hex_chars bs

unfoldable pub hex_encode : Option Bytes → Option ℕ → Result Bytes
hex_encode (some bs) (some cap) = do
  let len = length bs
  fail_if (ltb (int_max / 2) len || cap == 0 || ltb ((cap - 1) / 2) len) nomem
  ok (hex_chars bs)
hex_encode _ _ = err invalid

-- `none` is the -1 of the source.
unfoldable pub hex_nibble : ℕ → Option ℕ
hex_nibble c =
    if within b'0' b'9' c
    then some (c - b'0')
    else if within b'a' b'f' c
    then some (c - b'a' + 10)
    else if within b'A' b'F' c
    then some (c - b'A' + 10)
    else none

abbrev pub digit_or {ℓ} : {A : Type ℓ} → Option ℕ → (ℕ → Result A) → Result A
digit_or none f = err invalid
digit_or (some v) f = f v

-- The loop over in_len / 2 pairs.
pub hex_pairs : Bytes → Result Bytes
unfolding hex_nibble
hex_pairs (h ∷ l ∷ cs) =
    let rest = hex_pairs cs in
    digit_or (hex_nibble h)
      λ hi. digit_or (hex_nibble l) λ lo. do out ← rest; ok ((bit_or (hi * 2 ^ 4) lo % 256) ∷ out)
hex_pairs _ = ok []

unfoldable pub hex_decode : Option Bytes → Option ℕ → Result Bytes
hex_decode (some cs) (some cap) = do
  let len = length cs
  fail_if (not (len % 2 == 0)) invalid
  fail_if (ltb int_max (len / 2) || ltb cap (len / 2)) nomem
  hex_pairs cs
hex_decode _ _ = err invalid

abbrev pub b64_digit : ℕ → ℕ → ℕ
b64_digit chunk shift = get_or b64_digits (bit_and (chunk / 2 ^ shift) 0x3f) 0

-- The loop over whole chunks of three bytes, and the one or two bytes left behind it.
pub b64_chars : Bytes → Bytes
b64_chars (a ∷ b ∷ c ∷ bs) =
    let chunk = bit_or (bit_or (a * 2 ^ 16) (b * 2 ^ 8)) c in
    b64_digit chunk 18 ∷ b64_digit chunk 12 ∷ b64_digit chunk 6 ∷ b64_digit chunk 0 ∷ b64_chars bs
b64_chars (a ∷ b ∷ []) =
    let chunk = bit_or (a * 2 ^ 16) (b * 2 ^ 8) in
    b64_digit chunk 18 ∷ b64_digit chunk 12 ∷ b64_digit chunk 6 ∷ b'=' ∷ []
b64_chars (a ∷ []) =
    let chunk = a * 2 ^ 16 in b64_digit chunk 18 ∷ b64_digit chunk 12 ∷ b'=' ∷ b'=' ∷ []
b64_chars [] = []

unfoldable pub base64_encode : Option Bytes → Option ℕ → Result Bytes
base64_encode (some bs) (some cap) = do
  let len = length bs
  fail_if (ltb (int_max / 4 * 3) len) nomem
  fail_if (ltb cap ((len + 2) / 3 * 4 + 1)) nomem
  ok (b64_chars bs)
base64_encode _ _ = err invalid

unfoldable pub b64_value : ℕ → Option ℕ
b64_value c =
    if within b'A' b'Z' c
    then some (c - b'A')
    else if within b'a' b'z' c
    then some (c - b'a' + 26)
    else if within b'0' b'9' c
    then some (c - b'0' + 52)
    else if c == b'+'
    then some 62
    else if c == b'/'
    then some 63
    else none

-- The loop of the decoder: `acc` is a uint32_t, and `bits` counts its bits not yet written.
pub b64_bytes : Bytes → ℕ → ℕ → Result Bytes
unfolding b64_value
b64_bytes [] acc bits = ok []
b64_bytes (c ∷ cs) acc bits = digit_or (b64_value c) λ v.
    let acc' = bit_or (acc * 2 ^ 6 % 2 ^ 32) v in
    let more = b64_bytes cs acc' (bits + 6) in
    let emit = b64_bytes cs acc' (bits + 6 - 8) in
    if leb 8 (bits + 6)
    then (do out ← emit; ok ((bit_and (acc' / 2 ^ (bits + 6 - 8)) 0xff) ∷ out))
    else more

-- The extra bytes of a last group of `n` characters.
abbrev pub b64_extra : ℕ → ℕ
b64_extra n = if n == 2 then 1 else if n == 3 then 2 else 0

unfoldable pub base64_decode : Option Bytes → Option ℕ → Result Bytes
base64_decode (some cs) (some cap) = do
  let padded_len = length cs
  fail_if (ltb (int_max / 3) (padded_len / 4)) nomem
  let body = trim_end (λ c. c == b'=') cs
  let len = length body
  let padding = padded_len - len
  fail_if
      (ltb 2 padding
        || (not (padding == 0) && (not (padded_len % 4 == 0) || not (len % 4 == 4 - padding))))
      invalid
  fail_if (len % 4 == 1) invalid
  let size = len / 4 * 3 + b64_extra (len % 4)
  fail_if (ltb int_max size || ltb cap size) nomem
  b64_bytes body 0 0
base64_decode _ _ = err invalid
