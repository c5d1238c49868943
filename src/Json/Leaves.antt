-- ===== src/Json/Leaves.antt =====
-- src/json.c, lines 107 to 184: the tokens of strings and primitives.
use thalovant_embedded_c.Base.{
  subst, ℕ, suc, ◌+◌, ◌-◌, ◌≤◌, ◌<◌, not, Option, none, some, List, [], ◌∷◌, ◌++◌, append-nil,
  append_assoc, ◌≡◌, refl, sym, ap, ◌∙◌, inl, inr, Bytes, length, length-append, length-drop, take,
  drop, All, All-append, leb, ok, arith, Bool-cases, >>=-eq-ok,
}
use thalovant_embedded_c.Json.{
  JsonType, JsonTok, Parser, advance, count_while, skip_ws, alloc_tok, finish_tok, set_size,
  string_end, parse_string, check_primitive, is_primitive_end, parse_primitive, string, primitive,
  is_ws,
}
use thalovant_embedded_c.Json.Spans.{
  string_end_bound, count_while_bound, finish_tok-append, IsSpan, Moved, Reads,
}

abbrev pub open_tok : JsonType → Option ℕ → ℕ → JsonTok
open_tok kind parent start = record {
  kind = kind;
  start = start;
  finish = none;
  size = 0;
  parent = parent;
}

-- Closing the only new token, at a place behind its start.
closed_one :
    (n room end pos : ℕ) (text : Bytes) (p : Parser) (t : JsonTok)
    → length p.toks < room
    → t.start ≤ end
    → end ≤ n
    → p.pos ≤ pos
    → pos + length text ≡ n
    → Moved n room p
        (record {
          pos = pos;
          text = text;
          toks = finish_tok (length p.toks) end (p.toks ++ t ∷ []);
        })
        (record t { finish = some end } ∷ [])
closed_one n room end pos text p t fits start inside onward whole =
    let shape = finish_tok-append p.toks t [] end in
    let size = length-append p.toks (record t { finish = some end } ∷ []) in
    record {
      whole = whole;
      onward = onward;
      tokens = shape;
      spans = ((end, refl, start, inside), tt);
      enough = rw shape (omega arith);
    }

pub parse_string-Reads :
    (n room : ℕ) (parent : Option ℕ) (p : Parser) (idx : ℕ) (p' : Parser)
    → p.pos + length p.text ≡ n
    → 0 < length p.text
    → parse_string room parent p ≡ ok (idx, p')
    → (new : List JsonTok) × Moved n room p p' new × (idx ≡ length p.toks) × (0 < length new)
unfolding parse_string alloc_tok
parse_string-Reads n room parent p idx p' g given h = elim (Bool-cases (leb room (length p.toks))) [
  | inl e ↦ absurd (let full = rw e at h in cc)
  | inr e ↦
      let text = drop 1 p.text in
      let pos = p.pos + 1 in
      let left = length-drop 1 p.text in
      let opened = rw e at h in
      let (close, ended, done) = >>=-eq-ok (string_end (suc (length text)) pos text) _ opened in
      let (low, high) = string_end_bound (suc (length text)) pos text close ended in
      let t = open_tok string parent pos in
      let rest = length-drop (close + 1 - pos) text in
      let moved =
        closed_one n room close (pos + (close + 1 - pos)) (drop (close + 1 - pos) text) p t
          (ground arith) low (omega arith) (omega arith) (omega arith) in
      let made : record {
        pos = pos + (close + 1 - pos);
        text = drop (close + 1 - pos) text;
        toks = finish_tok (length p.toks) close (p.toks ++ t ∷ []);
      }
          ≡ p' =
        cc in
      let at : length p.toks ≡ idx = cc in
      (
        record t { finish = some close } ∷ [],
        subst (λ q. Moved n room p q (record t { finish = some close } ∷ [])) made moved,
        sym at,
        omega arith,
      )
]

pub parse_primitive-Reads : (n room : ℕ) → Reads n room (parse_primitive room)
unfolding parse_primitive alloc_tok
parse_primitive-Reads n room parent p idx p' g h = elim (Bool-cases (leb room (length p.toks))) [
  | inl e ↦ absurd (let full = rw e at h in cc)
  | inr e ↦
      let k = count_while (λ c. not (is_primitive_end c)) p.text in
      let bound = count_while_bound (λ c. not (is_primitive_end c)) p.text in
      let opened = rw e at h in
      let (_, checked, done) = >>=-eq-ok (check_primitive (take k p.text)) _ opened in
      let t = open_tok primitive parent p.pos in
      let rest = length-drop k p.text in
      let moved =
        closed_one n room (p.pos + k) (p.pos + k) (drop k p.text) p t (ground arith) (omega arith)
          (omega arith) (omega arith) (omega arith) in
      let made : record {
        pos = p.pos + k;
        text = drop k p.text;
        toks = finish_tok (length p.toks) (p.pos + k) (p.toks ++ t ∷ []);
      }
          ≡ p' =
        cc in
      let at : length p.toks ≡ idx = cc in
      (
        record t { finish = some (p.pos + k) } ∷ [],
        subst (λ q. Moved n room p q (record t { finish = some (p.pos + k) } ∷ [])) made moved,
        sym at,
        omega arith,
      )
]

-- Moves without tokens, and one move behind another.
pub advance-Moved :
    (n room k : ℕ) (p : Parser)
    → p.pos + length p.text ≡ n
    → k ≤ length p.text
    → length p.toks ≤ room
    → Moved n room p (advance k p) []
advance-Moved n room k p whole fits enough =
    let rest = length-drop k p.text in
    record {
      whole = omega arith;
      onward = omega arith;
      tokens = sym (append-nil p.toks);
      spans = tt;
      enough = enough;
    }

pub skip_ws-Moved :
    (n room : ℕ) (p : Parser)
    → p.pos + length p.text ≡ n
    → length p.toks ≤ room
    → Moved n room p (skip_ws p) []
unfolding skip_ws
skip_ws-Moved n room p whole enough =
    advance-Moved n room (count_while is_ws p.text) p whole (count_while_bound is_ws p.text) enough

pub Moved-join :
    {n room : ℕ} {p p1 p2 : Parser} {a b : List JsonTok}
    → Moved n room p p1 a
    → Moved n room p1 p2 b
    → Moved n room p p2 (a ++ b)
Moved-join {n} {room} {p} {p1} {p2} {a} {b} first second = record {
  whole = second.whole;
  onward = omega (arith, first.onward, second.onward);
  tokens = second.tokens ∙ ap (λ t. t ++ b) first.tokens ∙ append_assoc p.toks a b;
  spans = All-append (IsSpan n) a b first.spans second.spans;
  enough = second.enough;
}

pub set_size-spans :
    (n size : ℕ) (new : List JsonTok) → All (IsSpan n) new → All (IsSpan n) (set_size 0 size new)
unfolding set_size
set_size-spans n size [] h = tt
set_size-spans n size (t ∷ new) h = h
