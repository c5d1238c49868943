-- ===== src/Json/Ends.antt =====
-- src/json.c, lines 64 to 286: the tokenizer always ends.
use thalovant_embedded_c.Base.{
  ℕ, zero, suc, ◌+◌, ◌≤◌, ◌<◌, Bool, true, false, not, ◌||◌, Option, none, some, [], ◌∷◌, refl, inl,
  inr, Bytes, length, length-drop, take, drop, int_max, ltb, leb, ◌==◌, if◌then◌else◌, invalid,
  nomem, json, arith, Bool-cases, is_digit,
}
use thalovant_embedded_c.Base.{IsDone, >>=-IsDone, fail_if-IsDone}
use thalovant_embedded_c.Json.{
  JsonType, Parser, advance, count_while, skip_ws, alloc_tok, grow_tok, with_toks, escape_item,
  string_item, string_end, parse_string, skip_int, skip_digits, skip_frac, skip_sign, skip_exp,
  check_primitive, parse_primitive, object, array, string, primitive, is_ws, json_max_depth,
}
use thalovant_embedded_c.Json.Values.{
  Reader, parse_member, parse_item, next_is, parse_separator, parse_items, parse_container,
  parse_value, json_parse,
}
use thalovant_embedded_c.Json.Spans.{Reads, string_item_bound}
use thalovant_embedded_c.Json.Nested.{parse_separator_bound}
use thalovant_embedded_c.Json.Bounds.{parse_item-Moved, parse_value-Reads}

escape_item-IsDone : (text : Bytes) → IsDone (escape_item text)
unfolding escape_item
escape_item-IsDone [] = λ h. cc
escape_item-IsDone (esc ∷ rest) = λ h. ground arith

string_item-IsDone : (text : Bytes) → IsDone (string_item text)
unfolding string_item
string_item-IsDone [] = λ h. cc
string_item-IsDone (c ∷ rest) = λ h. ground (arith, escape_item-IsDone rest)

pub string_end-IsDone :
    (fuel pos : ℕ) (text : Bytes) → length text < fuel → IsDone (string_end fuel pos text)
unfolding string_end
string_end-IsDone zero pos text h = absurd (omega arith)
string_end-IsDone (suc fuel) pos text h =
    >>=-IsDone (string_item text) _ (string_item-IsDone text) (λ n item.
      elim (Bool-cases (n == 0)) [
        | inl e ↦ rw e (λ g. cc)
        | inr e ↦
            let (fits, given) = string_item_bound text n item in
            let size = length-drop n text in
            rw e (string_end-IsDone fuel (pos + n) (drop n text) (ground arith))
      ])

alloc_tok-IsDone :
    (room : ℕ) (kind : JsonType) (parent : Option ℕ) (p : Parser)
    → IsDone (alloc_tok room kind parent p)
unfolding alloc_tok
alloc_tok-IsDone room kind parent p = fail_if-IsDone (leb room (length p.toks)) nomem _ (λ e h. cc)

parse_string-IsDone :
    (room : ℕ) (parent : Option ℕ) (p : Parser) → IsDone (parse_string room parent p)
unfolding parse_string
parse_string-IsDone room parent p =
    >>=-IsDone (alloc_tok room string parent (advance 1 p)) _
      (alloc_tok-IsDone room string parent (advance 1 p))
      (λ a made.
        >>=-IsDone (string_end (suc (length a.1.text)) a.1.pos a.1.text) _
          (string_end-IsDone (suc (length a.1.text)) a.1.pos a.1.text (omega arith))
          (λ close ended h. cc))

skip_int-IsDone : (s : Bytes) → IsDone (skip_int s)
unfolding skip_int
skip_int-IsDone [] = λ h. cc
skip_int-IsDone (c ∷ s) = λ h. ground arith

skip_digits-IsDone : (s : Bytes) → IsDone (skip_digits s)
unfolding skip_digits
skip_digits-IsDone s = fail_if-IsDone (count_while is_digit s == 0) json _ (λ e h. cc)

skip_frac-IsDone : (s : Bytes) → IsDone (skip_frac s)
unfolding skip_frac
skip_frac-IsDone [] = λ h. cc
skip_frac-IsDone (c ∷ s) = λ h. ground (arith, skip_digits-IsDone s)

skip_exp-IsDone : (s : Bytes) → IsDone (skip_exp s)
unfolding skip_exp
skip_exp-IsDone [] = λ h. cc
skip_exp-IsDone (c ∷ s) = λ h. ground (arith, skip_digits-IsDone (skip_sign s))

pub check_primitive-IsDone : (s : Bytes) → IsDone (check_primitive s)
unfolding check_primitive
check_primitive-IsDone [] = λ h. cc
check_primitive-IsDone (c ∷ s) = elim (Bool-cases (c == b't' || c == b'f' || c == b'n')) [
  | inl e ↦ rw e (λ h. ground arith)
  | inr e ↦ rw e (
      >>=-IsDone (skip_int (if c == b'-' then s else c ∷ s)) _ (skip_int-IsDone _) (λ digits a.
        >>=-IsDone (skip_frac digits) _ (skip_frac-IsDone digits) (λ fraction b.
          >>=-IsDone (skip_exp fraction) _ (skip_exp-IsDone fraction) (λ rest d h. ground arith))))
]

parse_primitive-IsDone :
    (room : ℕ) (parent : Option ℕ) (p : Parser) → IsDone (parse_primitive room parent p)
unfolding parse_primitive
parse_primitive-IsDone room parent p =
    >>=-IsDone (alloc_tok room primitive parent p) _ (alloc_tok-IsDone room primitive parent p)
      (λ a made.
        >>=-IsDone (check_primitive (take (count_while _ a.1.text) a.1.text)) _
          (check_primitive-IsDone _) (λ u checked h. cc))

skip_ws-shorter : (p : Parser) → length (skip_ws p).text ≤ length p.text
unfolding skip_ws
skip_ws-shorter p = omega (arith, length-drop (count_while is_ws p.text) p.text)

-- A reader that ends on every text.
abbrev Halts : Reader → Type 0
Halts value = (parent : Option ℕ) (p : Parser) → IsDone (value parent p)

module _ (room : ℕ) (value : Reader) (reads : (n : ℕ) → Reads n room value)
    (halts : Halts value) where
  parse_member-IsDone : (idx : ℕ) (p : Parser) → IsDone (parse_member room value idx p)
  unfolding parse_member
  parse_member-IsDone idx p = fail_if-IsDone (not (next_is b'"' p)) json _ (λ quoted.
      >>=-IsDone (parse_string room (some idx) p) _ (parse_string-IsDone room (some idx) p)
        (λ a read. fail_if-IsDone (not (next_is b':' (skip_ws a.1))) json _ (λ colon.
          >>=-IsDone (value (some a.0) (advance 1 (skip_ws a.1))) _ (halts (some a.0) _)
            (λ b found h. cc))))

  parse_item-IsDone :
      (is_object : Bool) (idx : ℕ) (p : Parser) → IsDone (parse_item room value is_object idx p)
  unfolding parse_item
  parse_item-IsDone true idx p = parse_member-IsDone idx p
  parse_item-IsDone false idx p =
      >>=-IsDone (value (some idx) p) _ (halts (some idx) p) (λ a read h. cc)

  parse_separator-IsDone : (close : ℕ) (p : Parser) → IsDone (parse_separator close p)
  unfolding parse_separator
  parse_separator-IsDone close p =
      fail_if-IsDone (length p.text == 0) json _
        (λ some_text. fail_if-IsDone (not (next_is b',' p || next_is close p)) json _ (λ one h. cc))

  parse_items-IsDone :
      (fuel : ℕ) (is_object : Bool) (idx : ℕ) (p : Parser)
      → length p.text < fuel
      → IsDone (parse_items room value fuel is_object idx p)
  unfolding parse_items
  parse_items-IsDone zero is_object idx p h = absurd (omega arith)
  parse_items-IsDone (suc fuel) is_object idx p h =
      let close : ℕ = if is_object then b'}' else b']' in
      let p1 = skip_ws p in
      let first = skip_ws-shorter p in
      fail_if-IsDone (length p1.text == 0) json _ (λ some_text.
        >>=-IsDone (parse_item room value is_object idx p1) _ (parse_item-IsDone is_object idx p1)
          (λ p2 item.
            let q2 = with_toks (grow_tok idx p2.toks) p2 in
            let p3 = skip_ws q2 in
            >>=-IsDone (parse_separator close p3) _ (parse_separator-IsDone close p3)
              (λ more separator.
                let some_more = parse_separator_bound close p3 more separator in
                let n = p1.pos + length p1.text in
                let (new, moved) =
                  parse_item-Moved n room value (reads n) is_object idx p1 p2 refl item in
                let second = skip_ws-shorter q2 in
                let third = length-drop 1 p3.text in
                elim (Bool-cases more) [
                  | inl e ↦ rw e (
                      parse_items-IsDone fuel is_object idx (advance 1 p3)
                        (omega (arith, moved.whole, moved.onward)))
                  | inr e ↦ rw e (λ g. cc)
                ])))

  parse_container-IsDone :
      (is_object : Bool) (parent : Option ℕ) (p : Parser)
      → IsDone (parse_container room value is_object parent p)
  unfolding parse_container
  parse_container-IsDone is_object parent p =
      let close : ℕ = if is_object then b'}' else b']' in
      let kind : JsonType = if is_object then object else array in
      >>=-IsDone (alloc_tok room kind parent p) _ (alloc_tok-IsDone room kind parent p) (λ a made.
        let p2 = skip_ws (advance 1 a.1) in
        elim (Bool-cases (next_is close p2)) [
          | inl e ↦ rw e (λ g. cc)
          | inr e ↦ rw e (parse_items-IsDone (suc (length p2.text)) is_object a.0 p2 (omega arith))
        ])

parse_value-IsDone : (room depth : ℕ) → Halts (parse_value room depth)
unfolding parse_value
parse_value-IsDone room zero parent p = λ h. cc
parse_value-IsDone room (suc depth) parent p =
    let p1 = skip_ws p in
    let container =
      parse_container-IsDone room (parse_value room depth) (λ n. parse_value-Reads n room depth)
        (parse_value-IsDone room depth) in
    fail_if-IsDone (length p1.text == 0) json _ (λ some_text. elim (Bool-cases (next_is b'{' p1)) [
      | inl a ↦ rw a (container true parent p1)
      | inr a ↦ elim (Bool-cases (next_is b'[' p1)) [
        | inl b ↦ rw (a, b) (container false parent p1)
        | inr b ↦ elim (Bool-cases (next_is b'"' p1)) [
          | inl d ↦ rw (a, b, d) (parse_string-IsDone room parent p1)
          | inr d ↦ rw (a, b, d) (parse_primitive-IsDone room parent p1)
        ]
      ]
    ])

-- Every text is accepted or refused: none of the tokenizer's loops runs out of fuel, whatever the
-- text and the size of the token array.
pub json_parse-IsDone : (js : Option Bytes) (room : ℕ) → IsDone (json_parse js room)
unfolding json_parse
json_parse-IsDone none room = λ h. cc
json_parse-IsDone (some js) room =
    let start : Parser = record { pos = 0; text = js; toks = [] } in
    fail_if-IsDone (room == 0 || ltb int_max (length js)) invalid _ (λ checked.
      >>=-IsDone (parse_value room (json_max_depth + 1) none start) _
        (parse_value-IsDone room (json_max_depth + 1) none start)
        (λ a found. fail_if-IsDone (not (length (skip_ws a.1).text == 0)) json _ (λ ended h. cc)))
