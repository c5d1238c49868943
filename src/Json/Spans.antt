-- ===== src/Json/Spans.antt =====
-- src/json.c: how far a scan goes, and what a move of the tokenizer does to its tokens.
use thalovant_embedded_c.Base.{
  ℕ, zero, suc, ◌+◌, ◌≤◌, ◌<◌, Bool, Option, some, List, [], ◌∷◌, ◌++◌, ◌≡◌, refl, ap, inl, inr,
  Bytes, length, length-drop, drop, All, ◌==◌, ok, arith, Bool-cases, >>=-eq-ok,
}
use thalovant_embedded_c.Json.{
  JsonTok, Parser, count_while, finish_tok, set_size, grow_tok, escape_item, string_item,
  string_end,
}
use thalovant_embedded_c.Json.Values.{Reader}

pub string_item_bound :
    (text : Bytes) (n : ℕ) → string_item text ≡ ok n → (n ≤ length text) × (0 < length text)
unfolding string_item escape_item
string_item_bound [] n h = absurd (cc)
string_item_bound (c ∷ []) n h = ground arith
string_item_bound (c ∷ e ∷ rest) n h = ground arith

pub string_end_bound :
    (fuel pos : ℕ) (text : Bytes) (close : ℕ)
    → string_end fuel pos text ≡ ok close
    → (pos ≤ close) × (close < pos + length text)
unfolding string_end
string_end_bound zero pos text close h = absurd cc
string_end_bound (suc fuel) pos text close h =
    let (n, item, rest) = >>=-eq-ok (string_item text) _ h in
    let (fits, given) = string_item_bound text n item in
    let size = length-drop n text in
    elim (Bool-cases (n == 0)) [
      | inl e ↦ let done = rw e at rest in ground arith
      | inr e ↦
          let more = rw e at rest in
          let (low, high) = string_end_bound fuel (pos + n) (drop n text) close more in
          (omega arith, omega arith)
    ]

pub count_while_bound : (test : ℕ → Bool) (text : Bytes) → count_while test text ≤ length text
unfolding count_while
count_while_bound test [] = omega arith
count_while_bound test (c ∷ text) = ground (arith, count_while_bound test text)

-- The index is that of the token, and what stands before it stays.
pub finish_tok-append :
    (old : List JsonTok) (t : JsonTok) (done : List JsonTok) (end : ℕ)
    → finish_tok (length old) end (old ++ t ∷ done) ≡ old ++ record t { finish = some end } ∷ done
unfolding finish_tok
finish_tok-append [] t done end = refl
finish_tok-append (x ∷ old) t done end = ap (◌∷◌ x) (finish_tok-append old t done end)

pub set_size-append :
    (old new : List JsonTok) (size : ℕ)
    → set_size (length old) size (old ++ new) ≡ old ++ set_size 0 size new
unfolding set_size
set_size-append [] new size = refl
set_size-append (x ∷ old) new size = ap (◌∷◌ x) (set_size-append old new size)

pub grow_tok-append :
    (old : List JsonTok) (t : JsonTok) (done : List JsonTok)
    → grow_tok (length old) (old ++ t ∷ done) ≡ old ++ record t { size = t.size + 1 } ∷ done
unfolding grow_tok
grow_tok-append [] t done = refl
grow_tok-append (x ∷ old) t done = ap (◌∷◌ x) (grow_tok-append old t done)

-- A token that is closed, inside the first `n` characters.
abbrev pub IsSpan : ℕ → JsonTok → Type 0
IsSpan n t = (end : ℕ) × (t.finish ≡ some end) × (t.start ≤ end) × (end ≤ n)

-- A parser of a text of `n` characters that has moved on from `p`, with the tokens that follow.
pub record Moved (n room : ℕ) (p p' : Parser) (new : List JsonTok) : Type 0 where
  pub whole : p'.pos + length p'.text ≡ n
  pub onward : p.pos ≤ p'.pos
  pub tokens : p'.toks ≡ p.toks ++ new
  pub spans : All (IsSpan n) new
  pub enough : length p'.toks ≤ room

abbrev pub Reads : ℕ → ℕ → Reader → Type 0
Reads n room value =
    (parent : Option ℕ) (p : Parser) (idx : ℕ) (p' : Parser)
    → p.pos + length p.text ≡ n
    → value parent p ≡ ok (idx, p')
    → (new : List JsonTok) × Moved n room p p' new × (idx ≡ length p.toks) × (0 < length new)
