-- ===== src/Json/Examples.antt =====
-- src/json.c on examples.
use thalovant_embedded_c.Base.{
  All, ◌<◌, ◌≤◌, List, length, ℕ, Option, none, some, [], ◌∷◌, ◌≡◌, refl, codes, drop, ok, err,
  json, arith, is_digit,
}
use thalovant_embedded_c.Writer.{json_piece}
use thalovant_embedded_c.Writer.Laws.{pieces, literal}
use thalovant_embedded_c.Json.Escape.{
  json_unescape, unescape_loop, unescape_item, unicode_item, plain_escape, read_u16_escape, hex_val,
  put_utf8,
}
use thalovant_embedded_c.Json.Spans.{IsSpan}
use thalovant_embedded_c.Json.Bounds.{json_parse_bounds}
use thalovant_embedded_c.Json.Strings.{string_tok, json_parse-literal}
use thalovant_embedded_c.Base.{IsDone}
use thalovant_embedded_c.Json.Ends.{json_parse-IsDone}
use thalovant_embedded_c.Json.Lookup.{
  json_skip, json_object_get, find_member, json_str_eq, same_kind, text_is, tok_text, tok_at,
  skip_children,
}
use thalovant_embedded_c.Json.Subtree.{json_skip-pending}
use thalovant_embedded_c.Json.Scan.{
  json_scan, skip_ws_at, scan_value, scan_container, walk, walk_char, scanned, json_scan_key,
  scan_members, scan_member, behind_comma, char_is, keep_first, found_or_missing, scan_string,
  scan_primitive,
}
use thalovant_embedded_c.Json.ScanBounds.{IsFound, json_scan-IsFound}
use thalovant_embedded_c.Json.{
  JsonTok, JsonType, array, object, primitive, string, alloc_tok, check_primitive, count_while,
  escape_item, finish_tok, grow_tok, is_escape, is_hex_digit, is_primitive_end, json_max_depth,
  parse_primitive, parse_string, set_size, skip_digits, skip_exp, skip_frac, skip_int, skip_sign,
  skip_ws, string_end, string_item,
}
use thalovant_embedded_c.Json.Values.{
  json_parse, parse_container, parse_item, parse_items, parse_member, parse_separator, parse_value,
}

abbrev tok : JsonType → ℕ → ℕ → ℕ → Option ℕ → JsonTok
tok kind start end size parent = record {
  kind = kind;
  start = start;
  finish = some end;
  size = size;
  parent = parent;
}

abbrev sample_toks : List JsonTok
sample_toks =
    (tok object 0 18 1 none
      ∷ tok string 2 3 1 (some 0)
      ∷ tok array 6 17 2 (some 1)
      ∷ tok primitive 7 8 0 (some 2)
      ∷ tok primitive 10 16 0 (some 2)
      ∷ [])

parse_sample : json_parse (some (codes "{\"a\": [1, -2.5e3]}")) 8 ≡ ok sample_toks
unfolding alloc_tok check_primitive count_while escape_item finish_tok grow_tok is_escape
    is_hex_digit is_primitive_end json_max_depth parse_primitive parse_string set_size skip_digits
    skip_exp skip_frac skip_int skip_sign skip_ws string_end string_item json_parse parse_container
    parse_item parse_items parse_member parse_separator parse_value is_digit
parse_sample = refl

-- A surrogate pair, and what the two escapes stand for in UTF-8.
unescape_pair :
    json_unescape (codes "\\uD83D\\uDE00!") 13 10 ≡ ok (0xf0 ∷ 0x9f ∷ 0x98 ∷ 0x80 ∷ b'!' ∷ [])
unfolding json_unescape unescape_loop unescape_item unicode_item plain_escape read_u16_escape
    hex_val put_utf8
unescape_pair = refl

-- A backslash before a byte 0 passes the scanner, since strchr finds the terminator of its set.
scan_nul : string_end 9 1 (b'\\' ∷ 0 ∷ b'"' ∷ []) ≡ ok 3
unfolding string_end string_item escape_item is_escape
scan_nul = refl

unescape_nul : json_unescape (b'\\' ∷ 0 ∷ b'"' ∷ []) 2 10 ≡ err json
unfolding json_unescape unescape_loop unescape_item plain_escape
unescape_nul = refl

json_parse-literal_example :
    (json_parse (some (literal (codes "a\"b\n"))) 4
      ≡ ok (string_tok (length (pieces (codes "a\"b\n"))) ∷ []))
    × (json_unescape (drop 1 (literal (codes "a\"b\n"))) (length (pieces (codes "a\"b\n"))) 5
        ≡ ok (codes "a\"b\n"))
unfolding literal pieces json_piece
json_parse-literal_example =
    json_parse-literal (codes "a\"b\n") 4 5 (omega arith) (omega arith) (omega arith)

json_parse_bounds_example :
    (0 < length sample_toks)
    × (length sample_toks ≤ 8)
    × All (IsSpan (length (codes "{\"a\": [1, -2.5e3]}"))) sample_toks
json_parse_bounds_example =
    json_parse_bounds (codes "{\"a\": [1, -2.5e3]}") 8 sample_toks parse_sample

json_parse-IsDone_example : IsDone (json_parse (some (codes "{\"a\": [1, -2.5e3")) 8)
json_parse-IsDone_example = json_parse-IsDone (some (codes "{\"a\": [1, -2.5e3")) 8

json_skip-pending_example : (json_skip sample_toks 2 ≡ 5) × (json_skip sample_toks 2 ≤ 5)
json_skip-pending_example = json_skip-pending sample_toks 2 (omega arith)

get_sample : json_object_get (codes "{\"a\": [1, -2.5e3]}") sample_toks 0 (codes "a") ≡ some 2
unfolding json_object_get find_member json_str_eq same_kind text_is tok_text tok_at json_skip
    skip_children
get_sample = refl

json_scan-IsFound_example : IsFound 0 8 (tok array 1 8 2 none) 8 × (8 ≤ length (codes " [1, {}] "))
unfolding json_scan skip_ws_at scan_value scan_container walk walk_char scanned count_while
json_scan-IsFound_example = json_scan-IsFound (codes " [1, {}] ") 8 0 (tok array 1 8 2 none) 8 refl

scan_key_sample :
    json_scan_key (codes "{\"a\": 7, \"b\": 1}") (tok object 0 16 2 none) (codes "b")
    ≡ ok (tok primitive 14 15 0 none)
unfolding json_scan_key scan_members scan_member behind_comma char_is keep_first found_or_missing
    json_scan skip_ws_at scan_value scan_string scan_primitive scanned count_while string_end
    string_item json_str_eq same_kind text_is tok_text check_primitive skip_int skip_frac skip_exp
    is_primitive_end is_digit
scan_key_sample = refl
