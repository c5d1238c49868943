-- ===== src/Json/Nested.antt =====
-- src/json.c, lines 188 to 247: the open token of a container and the tokens in it.
use thalovant_embedded_c.Base.{
  subst, ℕ, zero, suc, ◌+◌, ◌≤◌, ◌<◌, Bool, some, List, [], ◌∷◌, ◌++◌, append_assoc, ◌≡◌, refl, sym,
  ap, ◌∙◌, length, length-append, All, All-append, ok, arith,
}
use thalovant_embedded_c.Json.{JsonTok, Parser, finish_tok, set_size, grow_tok, with_toks}
use thalovant_embedded_c.Json.Values.{parse_separator}
use thalovant_embedded_c.Json.Spans.{
  finish_tok-append, set_size-append, grow_tok-append, IsSpan, Moved,
}
use thalovant_embedded_c.Json.Leaves.{set_size-spans}

length-set_size :
    (idx size : ℕ) (toks : List JsonTok) → length (set_size idx size toks) ≡ length toks
unfolding set_size
length-set_size idx size [] = refl
length-set_size zero size (t ∷ toks) = refl
length-set_size (suc idx) size (t ∷ toks) = ap suc (length-set_size idx size toks)

length-grow_tok : (idx : ℕ) (toks : List JsonTok) → length (grow_tok idx toks) ≡ length toks
unfolding grow_tok
length-grow_tok idx [] = refl
length-grow_tok zero (t ∷ toks) = refl
length-grow_tok (suc idx) (t ∷ toks) = ap suc (length-grow_tok idx toks)

length-finish_tok :
    (idx end : ℕ) (toks : List JsonTok) → length (finish_tok idx end toks) ≡ length toks
unfolding finish_tok
length-finish_tok idx end [] = refl
length-finish_tok zero end (t ∷ toks) = refl
length-finish_tok (suc idx) end (t ∷ toks) = ap suc (length-finish_tok idx end toks)

pub set_size-Moved :
    {n room : ℕ} {p q : Parser} {new : List JsonTok} (size : ℕ)
    → Moved n room p q new
    → Moved n room p (with_toks (set_size (length p.toks) size q.toks) q) (set_size 0 size new)
set_size-Moved {n} {room} {p} {q} {new} size m = record {
  whole = m.whole;
  onward = m.onward;
  tokens = ap (set_size (length p.toks) size) m.tokens ∙ set_size-append p.toks new size;
  spans = set_size-spans n size new m.spans;
  enough = omega (arith, length-set_size (length p.toks) size q.toks, m.enough);
}

-- A parser inside a container that began at `p`, with its open token and the tokens in it.
pub record IsInside (n room : ℕ) (p q : Parser) (t : JsonTok) (new : List JsonTok) : Type 0 where
  pub whole : q.pos + length q.text ≡ n
  pub onward : p.pos ≤ q.pos
  pub behind : t.start ≤ q.pos
  pub tokens : q.toks ≡ p.toks ++ t ∷ new
  pub spans : All (IsSpan n) new
  pub enough : length q.toks ≤ room

pub IsInside-move :
    {n room : ℕ} {p q q' : Parser} {t : JsonTok} {a b : List JsonTok}
    → IsInside n room p q t a
    → Moved n room q q' b
    → IsInside n room p q' t (a ++ b)
IsInside-move {n} {room} {p} {q} {q'} {t} {a} {b} inside m = record {
  whole = m.whole;
  onward = omega (arith, inside.onward, m.onward);
  behind = omega (arith, inside.behind, m.onward);
  tokens = m.tokens ∙ ap (λ s. s ++ b) inside.tokens ∙ append_assoc p.toks (t ∷ a) b;
  spans = All-append (IsSpan n) a b inside.spans m.spans;
  enough = m.enough;
}

pub grow_tok-IsInside :
    {n room : ℕ} {p q : Parser} {t : JsonTok} {a : List JsonTok}
    → IsInside n room p q t a
    → IsInside n room p
        (with_toks (grow_tok (length p.toks) q.toks) q)
        (record t { size = t.size + 1 })
        a
grow_tok-IsInside {n} {room} {p} {q} {t} {a} inside = record {
  whole = inside.whole;
  onward = inside.onward;
  behind = inside.behind;
  tokens = ap (grow_tok (length p.toks)) inside.tokens ∙ grow_tok-append p.toks t a;
  spans = inside.spans;
  enough = omega (arith, length-grow_tok (length p.toks) q.toks, inside.enough);
}

pub finish_tok-Moved :
    {n room : ℕ} {p q : Parser} {t : JsonTok} {a : List JsonTok}
    → IsInside n room p q t a
    → Moved n room p
        (with_toks (finish_tok (length p.toks) q.pos q.toks) q)
        (record t { finish = some q.pos } ∷ a)
finish_tok-Moved {n} {room} {p} {q} {t} {a} inside = record {
  whole = inside.whole;
  onward = inside.onward;
  tokens = ap (finish_tok (length p.toks) q.pos) inside.tokens ∙ finish_tok-append p.toks t a q.pos;
  spans = ((q.pos, refl, inside.behind, omega (arith, inside.whole)), inside.spans);
  enough = omega (arith, length-finish_tok (length p.toks) q.pos q.toks, inside.enough);
}

pub finished :
    {n room : ℕ} {p r p' : Parser} {t : JsonTok} {a : List JsonTok} {idx : ℕ}
    → Moved n room p r (t ∷ a)
    → r ≡ p'
    → length p.toks ≡ idx
    → (new : List JsonTok) × Moved n room p p' new × (idx ≡ length p.toks) × (0 < length new)
finished {n} {room} {p} {r} {p'} {t} {a} m same at =
    (t ∷ a, subst (λ q. Moved n room p q (t ∷ a)) same m, sym at, omega arith)

pub opened_IsInside :
    (n room : ℕ) (p : Parser) (t : JsonTok)
    → 0 < length p.text
    → p.pos + length p.text ≡ n
    → length p.toks < room
    → t.start ≡ p.pos
    → IsInside n room p (with_toks (p.toks ++ t ∷ []) p) t []
opened_IsInside n room p t given whole fits start = record {
  whole = whole;
  onward = omega arith;
  behind = omega arith;
  tokens = refl;
  spans = tt;
  enough = omega (arith, length-append p.toks (t ∷ []));
}

pub parse_separator_bound :
    (close : ℕ) (p : Parser) (more : Bool) → parse_separator close p ≡ ok more → 1 ≤ length p.text
unfolding parse_separator
parse_separator_bound close p more h = ground arith
