-- ===== src/Json.antt =====
-- src/json.c, lines 25 to 184, and include/thalovant/json.h: the tokenizer. A parser holds the text
-- from its position on, and the tokens made so far. An end or a parent of -1 is none here.
use thalovant_embedded_c.Base.{
  ℕ, zero, suc, ◌+◌, ◌-◌, ◌/◌, Bool, true, false, not, ◌||◌, Option, none, some, List, [], ◌∷◌,
  ◌++◌, Bytes, codes, length, take, drop, ltb, leb, within, ◌==◌, if◌then◌else◌, Result, ok, err,
  stuck, nomem, json, ◌>>=◌, ◌>>◌, fail_if, beq, all, is_digit,
}
pub mod Values
pub mod Lookup
pub mod Coerce
pub mod Scan
pub mod Subtree
pub mod ScanBounds
pub mod Escape
pub mod Strings
pub mod Spans
pub mod Leaves
pub mod Nested
pub mod Bounds
pub mod Ends
mod Examples

pub data JsonType : Type 0 where
  undefined : JsonType
  object : JsonType
  array : JsonType
  string : JsonType
  primitive : JsonType

pub record JsonTok : Type 0 where
  pub kind : JsonType
  pub start : ℕ
  pub finish : Option ℕ
  pub size : ℕ
  pub parent : Option ℕ

pub record Parser : Type 0 where
  pub pos : ℕ
  pub text : Bytes
  pub toks : List JsonTok

unfoldable pub json_max_depth : ℕ
json_max_depth = 24

abbrev pub is_ws : ℕ → Bool
is_ws c = c == b' ' || c == b'\t' || c == b'\r' || c == b'\n'

abbrev pub advance : ℕ → Parser → Parser
advance n p = record { pos = p.pos + n; text = drop n p.text; toks = p.toks }

-- The number of characters at the front that pass the test.
unfoldable pub count_while : (ℕ → Bool) → Bytes → ℕ
count_while test [] = 0
count_while test (c ∷ text) = if test c then suc (count_while test text) else 0

unfoldable pub skip_ws : Parser → Parser
skip_ws p = advance (count_while is_ws p.text) p

unfoldable pub alloc_tok : ℕ → JsonType → Option ℕ → Parser → Result (ℕ × Parser)
alloc_tok room kind parent p =
    fail_if (leb room (length p.toks)) nomem
    >> ok (
      length p.toks,
      record {
        pos = p.pos;
        text = p.text;
        toks =
            p.toks
            ++ record { kind = kind; start = p.pos; finish = none; size = 0; parent = parent } ∷ [];
      },
    )

-- tok->end = end, and tok->size += more, of the token at `idx`.
unfoldable pub finish_tok : ℕ → ℕ → List JsonTok → List JsonTok
finish_tok idx end [] = []
finish_tok zero end (t ∷ toks) = record t { finish = some end } ∷ toks
finish_tok (suc idx) end (t ∷ toks) = t ∷ finish_tok idx end toks

unfoldable pub set_size : ℕ → ℕ → List JsonTok → List JsonTok
set_size idx size [] = []
set_size zero size (t ∷ toks) = record t { size = size } ∷ toks
set_size (suc idx) size (t ∷ toks) = t ∷ set_size idx size toks

unfoldable pub grow_tok : ℕ → List JsonTok → List JsonTok
grow_tok idx [] = []
grow_tok zero (t ∷ toks) = record t { size = t.size + 1 } ∷ toks
grow_tok (suc idx) (t ∷ toks) = t ∷ grow_tok idx toks

abbrev pub with_toks : List JsonTok → Parser → Parser
with_toks toks p = record { pos = p.pos; text = p.text; toks = toks }

unfoldable pub is_hex_digit : ℕ → Bool
is_hex_digit c = within b'0' b'9' c || within b'a' b'f' c || within b'A' b'F' c

-- strchr("\"\\/bfnrt", esc): strchr also finds the terminator.
unfoldable pub is_escape : ℕ → Bool
is_escape c =
    c == b'"'
    || c == b'\\'
    || c == b'/'
    || c == b'b'
    || c == b'f'
    || c == b'n'
    || c == b'r'
    || c == b't'
    || c == 0

-- The length of the escape behind a backslash, the backslash counted.
unfoldable pub escape_item : Bytes → Result ℕ
escape_item [] = err json
escape_item (esc ∷ rest) =
    if esc == b'u'
    then fail_if (ltb (length rest) 4) json
      >> fail_if (not (all is_hex_digit (take 4 rest))) json
      >> ok 6
    else fail_if (not (is_escape esc)) json >> ok 2

-- One round of string_end: the number of bytes it moves by, 0 on the closing quote.
unfoldable pub string_item : Bytes → Result ℕ
string_item [] = err json
string_item (c ∷ rest) =
    if c == b'"'
    then ok 0
    else if ltb c 0x20
    then err json
    else if c == b'\\'
    then escape_item rest
    else ok 1

unfoldable pub string_end : ℕ → ℕ → Bytes → Result ℕ
string_end zero pos text = stuck
string_end (suc fuel) pos text = do
  n ← string_item text
  let rest = string_end fuel (pos + n) (drop n text)
  if n == 0 then ok pos else rest

unfoldable pub parse_string : ℕ → Option ℕ → Parser → Result (ℕ × Parser)
parse_string room parent p = do
  (idx, p1) ← alloc_tok room string parent (advance 1 p)
  close ← string_end (suc (length p1.text)) p1.pos p1.text
  ok (idx, with_toks (finish_tok idx close p1.toks) (advance (close + 1 - p1.pos) p1))

unfoldable pub is_primitive_end : ℕ → Bool
is_primitive_end c = is_ws c || c == b',' || c == b']' || c == b'}'

unfoldable pub skip_int : Bytes → Result Bytes
skip_int [] = err json
skip_int (c ∷ s) =
    if c == b'0'
    then ok s
    else if within b'1' b'9' c
    then ok (drop (count_while is_digit s) s)
    else err json

-- One digit at least.
unfoldable pub skip_digits : Bytes → Result Bytes
skip_digits s = fail_if (count_while is_digit s == 0) json >> ok (drop (count_while is_digit s) s)

unfoldable pub skip_frac : Bytes → Result Bytes
skip_frac [] = ok []
skip_frac (c ∷ s) = if c == b'.' then skip_digits s else ok (c ∷ s)

unfoldable pub skip_sign : Bytes → Bytes
skip_sign [] = []
skip_sign (c ∷ s) = if c == b'+' || c == b'-' then s else c ∷ s

unfoldable pub skip_exp : Bytes → Result Bytes
skip_exp [] = ok []
skip_exp (c ∷ s) = if c == b'e' || c == b'E' then skip_digits (skip_sign s) else ok (c ∷ s)

unfoldable pub check_primitive : Bytes → Result {0} Unit
check_primitive [] = err json
check_primitive (c ∷ s) =
    if c == b't' || c == b'f' || c == b'n'
    then fail_if
        (not
          (beq (c ∷ s) (codes "true") || beq (c ∷ s) (codes "false") || beq (c ∷ s) (codes "null")))
        json
    else do
      digits ← skip_int (if c == b'-' then s else c ∷ s)
      fraction ← skip_frac digits
      rest ← skip_exp fraction
      fail_if (not (length rest == 0)) json

unfoldable pub parse_primitive : ℕ → Option ℕ → Parser → Result (ℕ × Parser)
parse_primitive room parent p = do
  (idx, p1) ← alloc_tok room primitive parent p
  let n = count_while (λ c. not (is_primitive_end c)) p1.text
  check_primitive (take n p1.text)
  ok (idx, with_toks (finish_tok idx (p1.pos + n) p1.toks) (advance n p1))
