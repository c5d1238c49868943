-- ===== src/Json/Bounds.antt =====
-- src/json.c, lines 188 to 286: every token of an accepted text is closed and inside the text.
use thalovant_embedded_c.Base.{
  subst, ℕ, zero, suc, ◌+◌, ◌≤◌, ◌<◌, Bool, true, false, not, ◌||◌, Option, none, some, List, [],
  ◌∷◌, ◌++◌, ◌≡◌, refl, sym, ap, ◌∙◌, inl, inr, Bytes, length, length-drop, All, int_max, ltb, leb,
  ◌==◌, if◌then◌else◌, Result, ok, invalid, json, fail_if, arith, Bool-cases, >>=-eq-ok,
}
use thalovant_embedded_c.Json.{
  JsonTok, Parser, advance, count_while, skip_ws, alloc_tok, finish_tok, set_size, grow_tok,
  with_toks, parse_string, parse_primitive, object, array, is_ws, json_max_depth,
}
use thalovant_embedded_c.Json.Values.{
  Reader, parse_member, parse_item, next_is, parse_separator, parse_items, parse_container,
  parse_value, json_parse,
}
use thalovant_embedded_c.Json.Spans.{count_while_bound, IsSpan, Moved, Reads}
use thalovant_embedded_c.Json.Leaves.{
  open_tok, parse_string-Reads, parse_primitive-Reads, advance-Moved, skip_ws-Moved, Moved-join,
}
use thalovant_embedded_c.Json.Nested.{
  set_size-Moved, IsInside, IsInside-move, grow_tok-IsInside, finish_tok-Moved, finished,
  opened_IsInside, parse_separator_bound,
}

module _ (n room : ℕ) (value : Reader) (reads : Reads n room value) where
  pub parse_item-Moved :
      (is_object : Bool) (idx : ℕ) (p p' : Parser)
      → p.pos + length p.text ≡ n
      → parse_item room value is_object idx p ≡ ok p'
      → (new : List JsonTok) × Moved n room p p' new
  unfolding parse_item parse_member
  parse_item-Moved false idx p p' g h =
      let ((i, p1), read, done) = >>=-eq-ok (value (some idx) p) _ h in
      let (new, moved, _, _) = reads (some idx) p i p1 g read in
      let same : p1 ≡ p' = cc in (new, subst (λ q. Moved n room p q new) same moved)
  parse_item-Moved true idx p p' g h =
      let (_, quoted, from_key) = >>=-eq-ok (fail_if (not (next_is b'"' p)) json) _ h in
      let given : 0 < length p.text = ground arith in
      let ((key, p1), read, from_colon) = >>=-eq-ok (parse_string room (some idx) p) _ from_key in
      let (new, moved, at, some_new) = parse_string-Reads n room (some idx) p key p1 g given read in
      let p2 = skip_ws p1 in
      let spaces = skip_ws-Moved n room p1 moved.whole moved.enough in
      let (_, colon, from_value) = >>=-eq-ok (fail_if (not (next_is b':' p2)) json) _ from_colon in
      let more : 1 ≤ length p2.text = ground arith in
      let behind = advance-Moved n room 1 p2 spaces.whole more spaces.enough in
      let ((i, p3), found, done) = >>=-eq-ok (value (some key) (advance 1 p2)) _ from_value in
      let (tree, grown, _, _) = reads (some key) (advance 1 p2) i p3 behind.whole found in
      let joined = Moved-join moved (Moved-join spaces (Moved-join behind grown)) in
      let sized = set_size-Moved 1 joined in
      let made : with_toks (set_size key 1 p3.toks) p3 ≡ p' = cc in
      let here : with_toks (set_size (length p.toks) 1 p3.toks) p3 ≡ p' =
        subst (λ k. with_toks (set_size k 1 p3.toks) p3 ≡ p') at made in
      (
        set_size 0 1 (new ++ ([] ++ ([] ++ tree))),
        subst (λ q. Moved n room p q (set_size 0 1 (new ++ ([] ++ ([] ++ tree))))) here sized,
      )

  parse_items-Moved :
      (fuel : ℕ) (is_object : Bool) (p q : Parser) (idx : ℕ) (p' : Parser) (t : JsonTok)
      (done : List JsonTok)
      → IsInside n room p q t done
      → parse_items room value fuel is_object (length p.toks) q ≡ ok (idx, p')
      → (new : List JsonTok) × Moved n room p p' new × (idx ≡ length p.toks) × (0 < length new)
  unfolding parse_items
  parse_items-Moved zero is_object p q idx p' t done inside h = absurd cc
  parse_items-Moved (suc fuel) is_object p q idx p' t done inside h =
      let close = if is_object then b'}' else b']' in
      let idx0 = length p.toks in
      let p1 = skip_ws q in
      let spaces = skip_ws-Moved n room q inside.whole inside.enough in
      let (_, given, from_item) = >>=-eq-ok (fail_if (length p1.text == 0) json) _ h in
      let (p2, item, from_separator) =
        >>=-eq-ok (parse_item room value is_object idx0 p1) _ from_item in
      let (new, moved) = parse_item-Moved is_object idx0 p1 p2 spaces.whole item in
      let in_item = IsInside-move (IsInside-move inside spaces) moved in
      let grown = grow_tok-IsInside in_item in
      let q2 = with_toks (grow_tok idx0 p2.toks) p2 in
      let p3 = skip_ws q2 in
      let spaces' = skip_ws-Moved n room q2 grown.whole grown.enough in
      let (more, separator, from_more) = >>=-eq-ok (parse_separator close p3) _ from_separator in
      let some_text = parse_separator_bound close p3 more separator in
      let on = advance-Moved n room 1 p3 spaces'.whole some_text spaces'.enough in
      let next = IsInside-move (IsInside-move grown spaces') on in
      elim (Bool-cases more) [
        | inl e ↦
            let again = rw e at from_more in
            parse_items-Moved fuel is_object p (advance 1 p3) idx p' _ _ next again
        | inr e ↦
            let ended = rw e at from_more in
            let made : with_toks (finish_tok idx0 (advance 1 p3).pos (advance 1 p3).toks)
                  (advance 1 p3)
                ≡ p' =
              cc in
            let at : idx0 ≡ idx = cc in finished (finish_tok-Moved next) made at
      ]

  -- What follows the opening bracket, by whether the container is empty.
  abbrev behind_bracket : Bool → ℕ → Parser → Bool → Result (ℕ × Parser)
  behind_bracket is_object idx q true =
      ok (idx, with_toks (finish_tok idx (advance 1 q).pos (advance 1 q).toks) (advance 1 q))
  behind_bracket is_object idx q false =
      parse_items room value (suc (length q.text)) is_object idx q

  parse_container-Reads :
      (is_object : Bool) (parent : Option ℕ) (p : Parser) (idx : ℕ) (p' : Parser)
      → p.pos + length p.text ≡ n
      → 0 < length p.text
      → parse_container room value is_object parent p ≡ ok (idx, p')
      → (new : List JsonTok) × Moved n room p p' new × (idx ≡ length p.toks) × (0 < length new)
  unfolding parse_container alloc_tok
  parse_container-Reads is_object parent p idx p' g given h =
      elim (Bool-cases (leb room (length p.toks))) [
        | inl e ↦ absurd (let full = rw e at h in cc)
        | inr e ↦
            let t = open_tok (if is_object then object else array) parent p.pos in
            let p1 : Parser = with_toks (p.toks ++ t ∷ []) p in
            let start = opened_IsInside n room p t given g (ground arith) refl in
            let one = advance-Moved n room 1 p1 start.whole given start.enough in
            let spaces = skip_ws-Moved n room (advance 1 p1) one.whole one.enough in
            let p2 = skip_ws (advance 1 p1) in
            let inside = IsInside-move (IsInside-move start one) spaces in
            let opened : behind_bracket is_object (length p.toks) p2
                  (next_is (if is_object then b'}' else b']') p2)
                ≡ ok (idx, p') =
              rw e at h in
            elim (Bool-cases (next_is (if is_object then b'}' else b']') p2)) [
              | inl c ↦
                  let ended = rw c at opened in
                  let more : 1 ≤ length p2.text = ground arith in
                  let on = advance-Moved n room 1 p2 spaces.whole more spaces.enough in
                  let made : with_toks
                        (finish_tok (length p.toks) (advance 1 p2).pos (advance 1 p2).toks)
                        (advance 1 p2)
                      ≡ p' =
                    cc in
                  let at : length p.toks ≡ idx = cc in
                  finished (finish_tok-Moved (IsInside-move inside on)) made at
              | inr c ↦
                  let again = rw c at opened in
                  parse_items-Moved (suc (length p2.text)) is_object p p2 idx p' t _ inside again
            ]
      ]

skip_ws-widen :
    (n room : ℕ) (p p' : Parser) (new : List JsonTok)
    → Moved n room (skip_ws p) p' new
    → Moved n room p p' new
unfolding skip_ws
skip_ws-widen n room p p' new m = record {
  whole = m.whole;
  onward = omega (arith, m.onward);
  tokens = m.tokens;
  spans = m.spans;
  enough = m.enough;
}

pub skip_ws-whole : (p : Parser) → (skip_ws p).pos + length (skip_ws p).text ≡ p.pos + length p.text
unfolding skip_ws
skip_ws-whole p =
    let k = count_while is_ws p.text in
    let bound = count_while_bound is_ws p.text in omega (arith, length-drop k p.text)

skip_ws-toks_len : (p : Parser) → length (skip_ws p).toks ≡ length p.toks
unfolding skip_ws
skip_ws-toks_len p = refl

value_at :
    (n room depth : ℕ) (parent : Option ℕ) (p : Parser) (idx : ℕ) (p' : Parser)
    → Reads n room (parse_value room depth)
    → p.pos + length p.text ≡ n
    → 0 < length p.text
    → (if next_is b'{' p
        then parse_container room (parse_value room depth) true parent p
        else if next_is b'[' p
        then parse_container room (parse_value room depth) false parent p
        else if next_is b'"' p
        then parse_string room parent p
        else parse_primitive room parent p)
      ≡ ok (idx, p')
    → (new : List JsonTok) × Moved n room p p' new × (idx ≡ length p.toks) × (0 < length new)
value_at n room depth parent p idx p' reads g given h =
    let container = parse_container-Reads n room (parse_value room depth) reads in
    elim (Bool-cases (next_is b'{' p)) [
      | inl a ↦ container true parent p idx p' g given (rw a at h)
      | inr a ↦ elim (Bool-cases (next_is b'[' p)) [
        | inl b ↦ container false parent p idx p' g given (rw (a, b) at h)
        | inr b ↦ elim (Bool-cases (next_is b'"' p)) [
          | inl c ↦ parse_string-Reads n room parent p idx p' g given (rw (a, b, c) at h)
          | inr c ↦ parse_primitive-Reads n room parent p idx p' g (rw (a, b, c) at h)
        ]
      ]
    ]

pub parse_value-Reads : (n room depth : ℕ) → Reads n room (parse_value room depth)
unfolding parse_value
parse_value-Reads n room zero parent p idx p' g h = absurd cc
parse_value-Reads n room (suc depth) parent p idx p' g h =
    let p1 = skip_ws p in
    let (_, given, rest) = >>=-eq-ok (fail_if (length p1.text == 0) json) _ h in
    let (new, moved, at, some_new) =
      value_at n room depth parent p1 idx p' (parse_value-Reads n room depth) (skip_ws-whole p ∙ g)
        (ground arith) rest in
    (new, skip_ws-widen n room p p' new moved, at ∙ skip_ws-toks_len p, some_new)

-- What the tokenizer accepts has one token at least and no more than the array holds; and every
-- token is closed, its end is not before its start, and it lies inside the text.
pub json_parse_bounds :
    (js : Bytes) (room : ℕ) (toks : List JsonTok)
    → json_parse (some js) room ≡ ok toks
    → (0 < length toks) × (length toks ≤ room) × All (IsSpan (length js)) toks
unfolding json_parse skip_ws
json_parse_bounds js room toks h =
    let start : Parser = record { pos = 0; text = js; toks = [] } in
    let (_, checked, from_value) =
      >>=-eq-ok (fail_if (room == 0 || ltb int_max (length js)) invalid) _ h in
    let ((idx, p), found, rest) =
      >>=-eq-ok (parse_value room (json_max_depth + 1) none start) _ from_value in
    let (_, ended, done) = >>=-eq-ok (fail_if (not (length (skip_ws p).text == 0)) json) _ rest in
    let (new, moved, _, some_new) =
      parse_value-Reads (length js) room (json_max_depth + 1) none start idx p (omega arith)
        found in
    let all_toks : p.toks ≡ toks = cc in
    let same : new ≡ toks = sym moved.tokens ∙ all_toks in
    subst (λ ts. (0 < length ts) × (length ts ≤ room) × All (IsSpan (length js)) ts) same
      (some_new, omega (arith, moved.enough, ap length moved.tokens), moved.spans)
