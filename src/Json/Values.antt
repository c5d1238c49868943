-- ===== src/Json/Values.antt =====
-- src/json.c, lines 186 to 286: values inside values. The nesting that is left stands for the depth:
-- 25 levels for the depths from 0 to THALOVANT_JSON_MAX_DEPTH. The loop of a container runs on fuel,
-- and every round takes a character at least.
use thalovant_embedded_c.Base.{
  ℕ, zero, suc, ◌+◌, Bool, true, false, not, ◌&&◌, ◌||◌, Option, none, some, List, [], Bytes,
  length, get_or, int_max, ltb, ◌==◌, if◌then◌else◌, Result, ok, err, stuck, invalid, json, ◌>>=◌,
  ◌>>◌, fail_if,
}
use thalovant_embedded_c.Json.{
  object, array, JsonTok, Parser, json_max_depth, advance, skip_ws, alloc_tok, finish_tok, set_size,
  grow_tok, with_toks, parse_string, parse_primitive,
}

-- A reader of one value: its parent and the parser in, its token and the parser out.
abbrev pub Reader : Type 0
Reader = Option ℕ → Parser → Result (ℕ × Parser)

abbrev pub next_is : ℕ → Parser → Bool
next_is c p = not (length p.text == 0) && (get_or p.text 0 0 == c)

-- The key, the colon and the value of one member.
unfoldable pub parse_member : ℕ → Reader → ℕ → Parser → Result Parser
parse_member room value idx p = do
  fail_if (not (next_is b'"' p)) json
  (key, p1) ← parse_string room (some idx) p
  let p2 = skip_ws p1
  fail_if (not (next_is b':' p2)) json
  (_, p3) ← value (some key) (advance 1 p2)
  ok (with_toks (set_size key 1 p3.toks) p3)

unfoldable pub parse_item : ℕ → Reader → Bool → ℕ → Parser → Result Parser
parse_item room value true idx p = parse_member room value idx p
parse_item room value false idx p = do (_, p1) ← value (some idx) p; ok p1

-- Behind an item: `true` behind a comma, `false` at the closing bracket.
unfoldable pub parse_separator : ℕ → Parser → Result Bool
parse_separator close p = do
  fail_if (length p.text == 0) json
  fail_if (not (next_is b',' p || next_is close p)) json
  ok (next_is b',' p)

unfoldable pub parse_items : ℕ → Reader → ℕ → Bool → ℕ → Parser → Result (ℕ × Parser)
parse_items room value zero is_object idx p = stuck
parse_items room value (suc fuel) is_object idx p = do
  let close = if is_object then b'}' else b']'
  let p1 = skip_ws p
  fail_if (length p1.text == 0) json
  p2 ← parse_item room value is_object idx p1
  let p3 = skip_ws (with_toks (grow_tok idx p2.toks) p2)
  more ← parse_separator close p3
  let p4 = advance 1 p3
  elim more [
    | true ↦ parse_items room value fuel is_object idx p4
    | false ↦ ok (idx, with_toks (finish_tok idx p4.pos p4.toks) p4)
  ]

unfoldable pub parse_container : ℕ → Reader → Bool → Reader
parse_container room value is_object parent p = do
  let close = if is_object then b'}' else b']'
  (idx, p1) ← alloc_tok room (if is_object then object else array) parent p
  let p2 = skip_ws (advance 1 p1)
  let p3 = advance 1 p2
  elim (next_is close p2) [
    | true ↦ ok (idx, with_toks (finish_tok idx p3.pos p3.toks) p3)
    | false ↦ parse_items room value (suc (length p2.text)) is_object idx p2
  ]

unfoldable pub parse_value : ℕ → ℕ → Reader
parse_value room zero parent p = err json
parse_value room (suc depth) parent p =
    let p1 = skip_ws p in
    fail_if (length p1.text == 0) json
    >> (if next_is b'{' p1
        then parse_container room (parse_value room depth) true parent p1
        else if next_is b'[' p1
        then parse_container room (parse_value room depth) false parent p1
        else if next_is b'"' p1
        then parse_string room parent p1
        else parse_primitive room parent p1)

-- The tokens of the text, from an array of `room` tokens.
unfoldable pub json_parse : Option Bytes → ℕ → Result (List JsonTok)
json_parse none room = err invalid
json_parse (some js) room = do
  fail_if (room == 0 || ltb int_max (length js)) invalid
  (_, p) ← parse_value room (json_max_depth + 1) none (record { pos = 0; text = js; toks = [] })
  let p1 = skip_ws p
  fail_if (not (length p1.text == 0)) json
  ok p1.toks
