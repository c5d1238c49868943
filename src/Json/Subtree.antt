-- ===== src/Json/Subtree.antt =====
-- src/json.c, thalovant_json_skip: the tokens of a value are those that one pass counts.
use thalovant_embedded_c.Base.{
  ℕ, zero, suc, ◌+◌, ◌≤◌, ◌<◌, false, List, [], ◌∷◌, ◌≡◌, refl, sym, ap, ◌∙◌, inl, inr, length,
  length-drop, drop, drop-get_or, drop_all, leb, arith, Bool-cases,
}
use thalovant_embedded_c.Json.{JsonTok}
use thalovant_embedded_c.Json.Lookup.{tok_at, skip_children, json_skip}

-- One pass over the tokens, with the number of values that are still to come.
abbrev pub pending : ℕ → List JsonTok → ℕ
pending zero toks = 0
pending (suc n) [] = 0
pending (suc n) (t ∷ toks) = suc (pending (t.size + n) toks)

pending_bound : (n : ℕ) (toks : List JsonTok) → pending n toks ≤ length toks
pending_bound zero toks = omega arith
pending_bound (suc n) [] = omega arith
pending_bound (suc n) (t ∷ toks) = omega (arith, pending_bound (t.size + n) toks)

pending_nil : (n : ℕ) → pending n [] ≡ 0
pending_nil zero = refl
pending_nil (suc n) = refl

drop-nil : (n : ℕ) → let none_left : List JsonTok = [] in drop n none_left ≡ none_left
drop-nil zero = refl
drop-nil (suc n) = refl

drop-drop : (m n : ℕ) (toks : List JsonTok) → drop m (drop n toks) ≡ drop (n + m) toks
drop-drop m zero toks = let e : m ≡ 0 + m = omega arith in ap (λ k. drop k toks) e
drop-drop m (suc n) [] = drop-nil m ∙ sym (drop-nil (suc n + m))
drop-drop m (suc n) (t ∷ toks) =
    let e : suc (n + m) ≡ suc n + m = omega arith in
    drop-drop m n toks ∙ ap (λ k. drop k (t ∷ toks)) e

pending_add :
    (a b : ℕ) (toks : List JsonTok)
    → pending (a + b) toks ≡ pending a toks + pending b (drop (pending a toks) toks)
pending_add zero b toks =
    let e : 0 + b ≡ b = omega arith in ap (λ n. pending n toks) e ∙ (omega arith)
pending_add (suc a) b [] = let x = pending_nil (suc a + b) in let y = pending_nil b in omega arith
pending_add (suc a) b (t ∷ toks) =
    let e : suc a + b ≡ suc (a + b) = omega arith in
    let e' : t.size + (a + b) ≡ (t.size + a) + b = omega arith in
    let both = ap (λ n. pending n toks) e' ∙ pending_add (t.size + a) b toks in
    ap (λ n. pending n (t ∷ toks)) e ∙ omega arith

skip_children-pending :
    (fuel : ℕ) (toks : List JsonTok) (left end : ℕ)
    → end ≤ length toks
    → length toks < fuel + end
    → skip_children fuel toks left end ≡ end + pending left (drop end toks)
unfolding skip_children tok_at
skip_children-pending zero toks left end h k = absurd (omega arith)
skip_children-pending (suc fuel) toks zero end h k = omega arith
skip_children-pending (suc fuel) toks (suc left) end h k =
    elim (Bool-cases (leb (length toks) end)) [
      | inl e ↦
          let none_left : drop end toks ≡ [] = drop_all end toks (ground arith) in
          rw (e, none_left) (omega arith)
      | inr e ↦
          let t = tok_at toks end in
          let inside : end < length toks = ground arith in
          let here : drop end toks ≡ t ∷ drop (suc end) toks = drop-get_or end toks _ inside in
          let first =
            skip_children-pending fuel toks t.size (end + 1) (omega arith) (omega arith) in
          let n = pending t.size (drop (suc end) toks) in
          let size = length-drop (suc end) toks in
          let bound = pending_bound t.size (drop (suc end) toks) in
          let second =
            skip_children-pending fuel toks left (end + 1 + n) (omega arith) (omega arith) in
          let both = pending_add t.size left (drop (suc end) toks) in
          let behind : drop n (drop (suc end) toks) ≡ drop (end + 1 + n) toks =
            let shift : suc end + n ≡ end + 1 + n = omega arith in
            drop-drop n (suc end) toks ∙ ap (λ k. drop k toks) shift in
          let whole : pending (suc left) (drop end toks)
              ≡ suc (n + pending left (drop (end + 1 + n) toks)) =
            ap (pending (suc left)) here ∙ ap suc (both ∙ ap (λ ts. n + pending left ts) behind) in
          let next : suc end ≡ end + 1 = omega arith in
          let first' : skip_children fuel toks t.size (end + 1) ≡ end + 1 + n =
            first ∙ ap (λ k. end + 1 + pending t.size (drop k toks)) (sym next) in
          rw (e, first') (second ∙ omega arith)
    ]

-- For an index of the array, `json_skip` gives the index behind the value there: behind as many
-- tokens as one pass over the array counts, which starts with one value to come and, at each token,
-- has as many more to come as the token's size says. The result is no more than the size of the
-- array.
pub json_skip-pending :
    (toks : List JsonTok) (idx : ℕ)
    → idx < length toks
    → (json_skip toks idx ≡ idx + pending 1 (drop idx toks)) × (json_skip toks idx ≤ length toks)
unfolding json_skip tok_at
json_skip-pending toks idx h =
    let t = tok_at toks idx in
    let inside : leb (length toks) idx ≡ false = ground arith in
    let here : drop idx toks ≡ t ∷ drop (suc idx) toks = drop-get_or idx toks _ h in
    let skipped =
      skip_children-pending (length toks) toks t.size (idx + 1) (omega arith) (omega arith) in
    let zero_more : t.size + 0 ≡ t.size = omega arith in
    let next : suc idx ≡ idx + 1 = omega arith in
    let counted : pending 1 (drop idx toks) ≡ suc (pending t.size (drop (idx + 1) toks)) =
      ap (pending 1) here
      ∙ ap suc (
          ap (λ n. pending n (drop (suc idx) toks)) zero_more
          ∙ ap (λ k. pending t.size (drop k toks)) next) in
    let size = length-drop (idx + 1) toks in
    let bound = pending_bound t.size (drop (idx + 1) toks) in
    (rw inside (skipped ∙ omega arith), rw inside (omega arith))
