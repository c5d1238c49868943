-- ===== src/Json/Coerce.antt =====
-- src/json.c, lines 450 to 613: what a value comes to as a text, a number or a truth value. strtod is
-- the parameter `to_double`, of a text that is a number as a whole: whether the number is not zero.
-- The range of `long` is a parameter. A token that is not closed has no text here; the tokenizer
-- makes none.
use thalovant_embedded_c.Base.{
  ℕ, ◌+◌, ◌-◌, ◌*◌, Bool, true, false, not, ◌&&◌, ◌||◌, Option, none, some, List, [], ◌∷◌, map,
  Bytes, codes, length, ltb, ◌==◌, if◌then◌else◌, Result, ok, err, stuck, invalid, nomem, json,
  missing, ◌>>=◌, ◌>>◌, fail_if, beq, all, trim_start, trim_end, is_space, is_digit, to_lower,
}
use thalovant_embedded_c.Json.{JsonType, JsonTok, object, array, string, primitive, undefined}
use thalovant_embedded_c.Json.Escape.{json_unescape}
use thalovant_embedded_c.Json.Lookup.{tok_text, tok_is_null, text_is}

unfoldable pub trim_in_place : Bytes → Bytes
trim_in_place text = trim_end is_space (trim_start is_space text)

unfoldable pub string_text : Option Bytes → ℕ → Result Bytes
string_text none room = err json
string_text (some text) room = do
  out ← json_unescape text (length text) room
  ok (trim_in_place out)

unfoldable pub copied_text : Option Bytes → ℕ → Result Bytes
copied_text none room = err nomem
copied_text (some text) room = fail_if (ltb room (length text + 1)) nomem >> ok (trim_in_place text)

unfoldable pub json_as_string : Bytes → JsonTok → ℕ → Result Bytes
json_as_string js tok room = do
  fail_if (room == 0) invalid
  elim tok.kind [
    | string ↦ string_text (tok_text js tok) room
    | primitive ↦ if tok_is_null js tok then ok [] else copied_text (tok_text js tok) room
    | _ ↦ err invalid
  ]

-- The buffer as the C library reads it, to the first zero byte.
unfoldable pub c_string : Bytes → Bytes
c_string [] = []
c_string (c ∷ text) = if c == 0 then [] else c ∷ c_string text

unfoldable pub decimal : ℕ → Bytes → ℕ
decimal value [] = value
decimal value (c ∷ text) = decimal (value * 10 + (c - b'0')) text

-- strtol on a text without leading spaces, where it reads the whole text: the sign and the magnitude.
unfoldable pub strtol_whole : Bytes → Option (Bool × ℕ)
strtol_whole [] = none
strtol_whole (c ∷ text) =
    let negative = c == b'-' in
    let digits : Bytes = if negative || c == b'+' then text else c ∷ text in
    if not (length digits == 0) && all is_digit digits
    then some (negative, decimal 0 digits)
    else none

-- A `long` of the magnitude, with the sign.
unfoldable pub in_long : ℕ → Option (Bool × ℕ) → Result (Bool × ℕ)
in_long long_max none = err invalid
in_long long_max (some (negative, value)) =
    let most : ℕ = if negative then long_max + 1 else long_max in
    fail_if (ltb most value) invalid >> ok (negative, value)

unfoldable pub or_invalid_text : Result Bytes → Result Bytes
or_invalid_text stuck = stuck
or_invalid_text (err code) = err invalid
or_invalid_text (ok text) = ok text

unfoldable pub json_as_int : ℕ → Bytes → JsonTok → Result (Bool × ℕ)
json_as_int long_max js tok = do
  buf ← or_invalid_text (json_as_string js tok 32)
  fail_if (length buf == 0) missing
  in_long long_max (strtol_whole (c_string buf))

-- strcmp(buf, word) == 0 for one of the words.
unfoldable pub is_one_of : Bytes → List Bytes → Bool
is_one_of text [] = false
is_one_of text (word ∷ words) = beq text word || is_one_of text words

unfoldable pub is_number_kind : JsonType → Bool
is_number_kind primitive = true
is_number_kind _ = false

unfoldable pub bool_or : Option Bool → Bool → Bool
bool_or none fallback = fallback
bool_or (some b) fallback = b

unfoldable pub bool_of : (Bytes → Option Bool) → JsonTok → Bool → Result Bytes → Bool
bool_of to_double tok fallback (ok buf) =
    let text = c_string (map to_lower buf) in
    if is_one_of text (codes "1" ∷ codes "true" ∷ codes "yes" ∷ codes "on" ∷ [])
    then true
    else (if is_one_of text (codes "0" ∷ codes "false" ∷ codes "no" ∷ codes "off" ∷ [])
        then false
        else (if is_number_kind tok.kind then bool_or (to_double text) fallback else fallback))
bool_of to_double tok fallback _ = fallback

unfoldable pub json_as_bool : (Bytes → Option Bool) → Bytes → JsonTok → Bool → Bool
json_as_bool to_double js tok fallback = bool_of to_double tok fallback (json_as_string js tok 16)

unfoldable pub number_truth : (Bytes → Option Bool) → Result Bytes → Bool
number_truth to_double (ok buf) = bool_or (to_double (c_string buf)) true
number_truth to_double _ = true

unfoldable pub has_bytes : Option Bytes → Bool
has_bytes none = false
has_bytes (some text) = ltb 0 (length text)

unfoldable pub json_is_truthy : (Bytes → Option Bool) → Bytes → JsonTok → Bool
json_is_truthy to_double js tok =
    let text = tok_text js tok in
    elim tok.kind [
      | object ↦ true
      | array ↦ true
      | string ↦ has_bytes text
      | primitive ↦
          if text_is text (codes "null") || text_is text (codes "false")
          then false
          else (if text_is text (codes "true")
              then true
              else number_truth to_double (json_as_string js tok 32))
      | undefined ↦ false
    ]

unfoldable pub behind_quote : Option ℕ → Option ℕ
behind_quote none = none
behind_quote (some end) = some (end + 1)

-- The span with its quotes; the parser's own tokens are closed.
unfoldable pub json_raw_span : JsonTok → ℕ × Option ℕ
json_raw_span tok = elim tok.kind [
  | string ↦ (tok.start - 1, behind_quote tok.finish)
  | _ ↦ (tok.start, tok.finish)
]
