-- ===== src/Json/Escape.antt =====
-- src/json.c, lines 343 to 448: from a string token to its bytes. A text here is the source from a
-- position on, and `left` the characters of it before the token's end. An unsigned long is below 2^64.
use thalovant_embedded_c.Base.{
  ℕ, zero, suc, ◌+◌, ◌-◌, ◌*◌, ◌/◌, ◌%◌, ◌^◌, not, ◌&&◌, ◌||◌, Option, none, some, [], ◌∷◌, ◌++◌,
  bit_and, bit_or, Bytes, length, take, drop, get_or, ltb, leb, within, ◌==◌, if◌then◌else◌, Result,
  ok, err, stuck, invalid, nomem, json, ◌>>=◌, ◌>>◌, fail_if,
}

-- hex_val, -1 as an unsigned long.
unfoldable pub hex_val : ℕ → ℕ
hex_val c =
    if within b'0' b'9' c
    then c - b'0'
    else if within b'a' b'f' c
    then c - b'a' + 10
    else if within b'A' b'F' c
    then c - b'A' + 10
    else 2 ^ 64 - 1

unfoldable pub put_utf8 : ℕ → Bytes
put_utf8 cp =
    if ltb cp 0x80
    then cp ∷ []
    else if ltb cp 0x800
    then bit_or 0xc0 (cp / 2 ^ 6) % 256 ∷ bit_or 0x80 (bit_and cp 0x3f) ∷ []
    else if ltb cp 0x10000
    then bit_or 0xe0 (cp / 2 ^ 12) % 256
      ∷ bit_or 0x80 (bit_and (cp / 2 ^ 6) 0x3f)
      ∷ bit_or 0x80 (bit_and cp 0x3f)
      ∷ []
    else bit_or 0xf0 (cp / 2 ^ 18) % 256
      ∷ bit_or 0x80 (bit_and (cp / 2 ^ 12) 0x3f)
      ∷ bit_or 0x80 (bit_and (cp / 2 ^ 6) 0x3f)
      ∷ bit_or 0x80 (bit_and cp 0x3f)
      ∷ []

unfoldable pub read_u16_escape : Bytes → ℕ
read_u16_escape s = go 4 0 0
  where
    go : ℕ → ℕ → ℕ → ℕ
    go zero i value = value
    go (suc left) i value =
        go left (i + 1) (bit_or (value * 2 ^ 4 % 2 ^ 64) (hex_val (get_or s i 0)))

-- The bytes that an escape is read as, and its length; the text is the one behind `\u`.
unfoldable pub unicode_item : ℕ → Bytes → ℕ × Bytes
unicode_item left text =
    let cp = read_u16_escape text in
    let low = read_u16_escape (drop 6 text) in
    if within 0xd800 0xdbff cp
      && leb 12 left
      && (get_or text 4 0 == b'\\')
      && (get_or text 5 0 == b'u')
      && within 0xdc00 0xdfff low
    then (12, put_utf8 (0x10000 + (cp - 0xd800) * 2 ^ 10 + (low - 0xdc00)))
    else (6, put_utf8 cp)

-- The switch over the character behind a backslash.
unfoldable pub plain_escape : ℕ → Option ℕ
plain_escape esc =
    if esc == b'"' || esc == b'\\' || esc == b'/'
    then some esc
    else if esc == b'b'
    then some 8
    else if esc == b'f'
    then some 12
    else if esc == b'n'
    then some b'\n'
    else if esc == b'r'
    then some b'\r'
    else if esc == b't'
    then some b'\t'
    else none

-- One round: the number of characters it moves by, and the bytes it writes.
unfoldable pub unescape_item : ℕ → Bytes → Result (ℕ × Bytes)
unescape_item left text =
    let esc = get_or text 1 0 in
    if not (get_or text 0 0 == b'\\')
    then ok (1, take 1 text)
    else if esc == b'u'
    then ok (unicode_item left (drop 2 text))
    else elim (plain_escape esc) [ some c ↦ ok (2, c ∷ []) | none ↦ err json ]

-- The loop, on fuel: every round moves by a character at least.
unfoldable pub unescape_loop : ℕ → ℕ → Bytes → ℕ → Bytes → Result Bytes
unescape_loop zero room out left text = stuck
unescape_loop (suc fuel) room out zero text = ok out
unescape_loop (suc fuel) room out (suc left) text = do
  (n, bytes) ← unescape_item (suc left) text
  fail_if (leb room (length out + length bytes)) nomem
  unescape_loop fuel room (out ++ bytes) (suc left - n) (drop n text)

-- The bytes of a string token that begins where the text does and has `left` characters.
unfoldable pub json_unescape : Bytes → ℕ → ℕ → Result Bytes
json_unescape text left room =
    fail_if (room == 0) invalid >> unescape_loop (suc left) room [] left text
