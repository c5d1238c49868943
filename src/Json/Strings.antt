-- ===== src/Json/Strings.antt =====
-- src/json.c, lines 64 to 122 and 343 to 448, against src/wire.c, lines 62 to 100: a string literal
-- that the writer prints is one token, and the token is read back as the bytes.
use thalovant_embedded_c.Base.{
  drop_all, ℕ, zero, suc, ◌+◌, ◌-◌, ◌/◌, ◌%◌, ◌≤◌, ◌<◌, true, false, ◌&&◌, ◌||◌, none, some, [],
  ◌∷◌, ◌++◌, append-nil, append_assoc, ◌≡◌, refl, ap, ◌∙◌, ◌≢◌, ◌⊎◌, inl, inr, Bytes, length,
  length-append, drop, drop-append, get_or, int_max, ltb, leb, ◌==◌, ok, nomem, ◌>>=◌, ◌>>◌,
  fail_if, arith, ==_iff, all_below, all_below→eq,
}
use thalovant_embedded_c.Codec.{hex_digits}
use thalovant_embedded_c.Writer.{json_piece}
use thalovant_embedded_c.Writer.Laws.{pieces, literal}
use thalovant_embedded_c.Json.{
  JsonTok, string, Parser, count_while, skip_ws, alloc_tok, finish_tok, parse_string,
  json_max_depth, is_hex_digit, is_escape, escape_item, string_item, string_end,
}
use thalovant_embedded_c.Json.Values.{parse_value, json_parse}
use thalovant_embedded_c.Json.Escape.{
  hex_val, put_utf8, read_u16_escape, unicode_item, plain_escape, unescape_item, unescape_loop,
  json_unescape,
}

-- The two hexadecimal digits of a control character.
abbrev high : ℕ → ℕ
high c = get_or hex_digits (c / 16) 0

abbrev low : ℕ → ℕ
low c = get_or hex_digits (c % 16) 0

control_digits : (c : ℕ) → c < 32 → (is_hex_digit (high c) && is_hex_digit (low c)) ≡ true
unfolding is_hex_digit all_below
control_digits = all_below→eq 32 (λ c. is_hex_digit (high c) && is_hex_digit (low c)) refl

control_value : (c : ℕ) → c < 32 → read_u16_escape (b'0' ∷ b'0' ∷ high c ∷ low c ∷ []) ≡ c
unfolding hex_val read_u16_escape all_below
control_value c h =
    (==_iff _ _).0
      (all_below→eq 32 (λ v. read_u16_escape (b'0' ∷ b'0' ∷ high v ∷ low v ∷ []) == v) refl c h)

-- The three forms of a piece.
abbrev letter : ℕ → ℕ
letter c = get_or (json_piece c) 1 0

abbrev IsShort : ℕ → Type 0
IsShort c =
    (json_piece c ≡ b'\\' ∷ letter c ∷ [])
    × (is_escape (letter c) ≡ true)
    × (letter c ≢ b'u')
    × (plain_escape (letter c) ≡ some c)

abbrev IsControl : ℕ → Type 0
IsControl c = (json_piece c ≡ b'\\' ∷ b'u' ∷ b'0' ∷ b'0' ∷ high c ∷ low c ∷ []) × (c < 32)

abbrev IsPlain : ℕ → Type 0
IsPlain c = (json_piece c ≡ c ∷ []) × (32 ≤ c) × (c ≢ b'"') × (c ≢ b'\\')

piece_cases : (c : ℕ) → IsShort c ⊎ (IsControl c ⊎ IsPlain c)
unfolding json_piece is_escape plain_escape
piece_cases c = ground arith

zero_digit : is_hex_digit b'0' ≡ true
unfolding is_hex_digit
zero_digit = refl

-- The writer's text for one byte is an item of the scanner.
item_piece :
    (c : ℕ) (tail : Bytes)
    → (string_item (json_piece c ++ tail) ≡ ok (length (json_piece c)))
      × (0 < length (json_piece c))
unfolding string_item escape_item
item_piece c tail = elim (piece_cases c) [
  | inl s ↦ let (form, taken, not_u, _) = s in rw form (ground arith)
  | inr (inl s) ↦
      let (form, small) = s in
      let digits = control_digits c small in rw form (ground (arith, zero_digit))
  | inr (inr s) ↦ let (form, bound, not_quote, not_slash) = s in rw form (ground arith)
]

control_item :
    (left c : ℕ) (tail : Bytes)
    → c < 32
    → ok (unicode_item left (b'0' ∷ b'0' ∷ high c ∷ low c ∷ tail)) ≡ ok (6, c ∷ [])
unfolding unicode_item put_utf8 read_u16_escape
control_item left c tail h =
    let value : read_u16_escape (b'0' ∷ b'0' ∷ high c ∷ low c ∷ tail) ≡ c = control_value c h in
    rw value (ground arith)

unescape_piece :
    (left c : ℕ) (tail : Bytes)
    → unescape_item left (json_piece c ++ tail) ≡ ok (length (json_piece c), c ∷ [])
unfolding unescape_item
unescape_piece left c tail = elim (piece_cases c) [
  | inl s ↦ let (form, _, not_u, meant) = s in rw form (ground arith)
  | inr (inl s) ↦ let (form, small) = s in rw form (control_item left c tail small)
  | inr (inr s) ↦ let (form, _, _, not_slash) = s in rw form (ground arith)
]

quote_item : (tail : Bytes) → string_item (b'"' ∷ tail) ≡ ok 0
unfolding string_item
quote_item tail = refl

-- The scanner stops on the quote behind the pieces.
string_end-pieces :
    (fuel pos : ℕ) (text tail : Bytes)
    → length text < fuel
    → string_end fuel pos (pieces text ++ b'"' ∷ tail) ≡ ok (pos + length (pieces text))
unfolding string_end pieces
string_end-pieces zero pos text tail h = absurd (omega arith)
string_end-pieces (suc fuel) pos [] tail h = rw (quote_item tail) (ground arith)
string_end-pieces (suc fuel) pos (c ∷ text) tail h =
    let piece = json_piece c in
    let after = pieces text ++ b'"' ∷ tail in
    let joined = append_assoc piece (pieces text) (b'"' ∷ tail) in
    let (item, some_bytes) = item_piece c after in
    let rest = string_end-pieces fuel (pos + length piece) text tail (omega arith) in
    let size = length-append piece (pieces text) in
    let moved = drop-append piece after in
    rw (joined, item, moved, rest) (ground (arith, size, some_bytes))

unescape_step :
    (fuel room left : ℕ) (out text : Bytes)
    → 0 < left
    → unescape_loop (suc fuel) room out left text ≡ (
        unescape_item left text >>= λ (n, bytes).
        fail_if (leb room (length out + length bytes)) nomem
        >> unescape_loop fuel room (out ++ bytes) (left - n) (drop n text))
unfolding unescape_loop
unescape_step fuel room zero out text h = absurd (omega arith)
unescape_step fuel room (suc left) out text h = refl

unescape_loop-pieces :
    (fuel room : ℕ) (text out tail : Bytes)
    → length text < fuel
    → length out + length text < room
    → unescape_loop fuel room out (length (pieces text)) (pieces text ++ tail) ≡ ok (out ++ text)
unfolding unescape_loop pieces
unescape_loop-pieces zero room text out tail h k = absurd (omega arith)
unescape_loop-pieces (suc fuel) room [] out tail h k = rw (append-nil out) refl
unescape_loop-pieces (suc fuel) room (c ∷ text) out tail h k =
    let piece = json_piece c in
    let after = pieces text ++ tail in
    let joined = append_assoc piece (pieces text) tail in
    let (_, some_bytes) = item_piece c after in
    let size = length-append piece (pieces text) in
    let left : length (piece ++ pieces text) - length piece ≡ length (pieces text) = omega arith in
    let item = unescape_piece (length (piece ++ pieces text)) c after in
    let moved = drop-append piece after in
    let longer = length-append out (c ∷ []) in
    let rest =
      unescape_loop-pieces fuel room text (out ++ c ∷ []) tail (omega arith) (omega arith) in
    let fits : leb room (length out + 1) ≡ false = ground arith in
    let step =
      unescape_step fuel room (length (piece ++ pieces text)) out (piece ++ after) (omega arith) in
    rw joined (step ∙ rw (item, fits, left, moved) (rest ∙ ap ok (append_assoc out (c ∷ []) text)))

pieces_longer : (text : Bytes) → length text ≤ length (pieces text)
unfolding pieces
pieces_longer [] = omega arith
pieces_longer (c ∷ text) =
    let (_, some_bytes) = item_piece c [] in
    omega (arith, length-append (json_piece c) (pieces text), pieces_longer text)

json_unescape-pieces :
    (text tail : Bytes) (room : ℕ)
    → length text < room
    → json_unescape (pieces text ++ tail) (length (pieces text)) room ≡ ok text
unfolding json_unescape
json_unescape-pieces text tail room h =
    let given : (room == 0) ≡ false = ground arith in
    let enough = pieces_longer text in
    rw given (
      unescape_loop-pieces (suc (length (pieces text))) room text [] tail (omega arith)
        (omega arith))

-- The token of a literal that is the whole text.
abbrev pub string_tok : ℕ → JsonTok
string_tok n = record { kind = string; start = 1; finish = some (1 + n); size = 0; parent = none }

abbrev at_start : Bytes → Parser
at_start text = record { pos = 0; text = text; toks = [] }

abbrev at_end : Bytes → Parser
at_end text = record {
  pos = 1 + (1 + length (pieces text) + 1 - 1);
  text = [];
  toks = string_tok (length (pieces text)) ∷ [];
}

parse_string-literal :
    (text : Bytes) (room : ℕ)
    → 0 < room
    → parse_string room none (at_start (literal text)) ≡ ok (0, at_end text)
unfolding parse_string literal alloc_tok finish_tok
parse_string-literal text room h =
    let n = length (pieces text) in
    let given : (leb room 0) ≡ false = ground arith in
    let size = length-append (pieces text) (b'"' ∷ []) in
    let enough = pieces_longer text in
    let close =
      string_end-pieces (suc (length (pieces text ++ b'"' ∷ []))) 1 text [] (omega arith) in
    let cut = drop_all (1 + n + 1 - 1) (pieces text ++ b'"' ∷ []) (omega arith) in
    rw (given, close, cut) refl

skip_ws-quote : (rest : Bytes) → skip_ws (at_start (b'"' ∷ rest)) ≡ at_start (b'"' ∷ rest)
unfolding skip_ws count_while
skip_ws-quote rest = refl

skip_ws-end : (text : Bytes) → (skip_ws (at_end text)).text ≡ []
unfolding skip_ws count_while
skip_ws-end text = refl

skip_ws-toks : (text : Bytes) → (skip_ws (at_end text)).toks ≡ (at_end text).toks
unfolding skip_ws
skip_ws-toks text = refl

parse_value-quote :
    (room depth : ℕ) (rest : Bytes)
    → parse_value room (suc depth) none (at_start (b'"' ∷ rest))
      ≡ parse_string room none (at_start (b'"' ∷ rest))
unfolding parse_value
parse_value-quote room depth rest = rw (skip_ws-quote rest) (ground arith)

-- A text that is one printed literal, not longer than an int holds, is tokenized as one string
-- token without its quotes in every token array that is not empty; and the token is unescaped to
-- the bytes that were printed in every buffer that holds them and a terminator.
pub json_parse-literal :
    (text : Bytes) (room size : ℕ)
    → 0 < room
    → length (literal text) ≤ int_max
    → length text < size
    → (json_parse (some (literal text)) room ≡ ok (string_tok (length (pieces text)) ∷ []))
      × (json_unescape (drop 1 (literal text)) (length (pieces text)) size ≡ ok text)
unfolding json_parse literal json_max_depth
json_parse-literal text room size h k fits =
    let given : (room == 0 || ltb int_max (length (literal text))) ≡ false = ground arith in
    let value =
      parse_value-quote room json_max_depth (pieces text ++ b'"' ∷ [])
      ∙ parse_string-literal text room h in
    (
      rw (given, value, skip_ws-end text, skip_ws-toks text) refl,
      json_unescape-pieces text (b'"' ∷ []) size fits,
    )
