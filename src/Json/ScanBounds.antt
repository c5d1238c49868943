-- ===== src/Json/ScanBounds.antt =====
-- src/json.c, thalovant_json_scan: what a shallow scan gives lies in the text, and the scan moves on.
use thalovant_embedded_c.Base.{
  ℕ, zero, suc, ◌+◌, ◌-◌, ◌≤◌, ◌<◌, Bool, true, false, not, [], ◌∷◌, ◌≡◌, refl, subst, inl, inr,
  Bytes, length, length-take, length-drop, take, drop, int_max, ltb, ◌==◌, if◌then◌else◌, ok,
  invalid, json, arith, Bool-cases, >>=-eq-ok, fail_if-eq-ok, ok_pair,
}
use thalovant_embedded_c.Base.{IsDone, >>=-IsDone, fail_if-IsDone}
use thalovant_embedded_c.Json.{JsonTok, count_while, string_end, check_primitive, is_primitive_end}
use thalovant_embedded_c.Json.Scan.{
  text_at, skip_ws_at, scanned, Walk, walk_char, walk, scan_container, scan_string, scan_primitive,
  scan_value, json_scan,
}
use thalovant_embedded_c.Json.Spans.{string_end_bound, count_while_bound, IsSpan}
use thalovant_embedded_c.Json.Ends.{string_end-IsDone, check_primitive-IsDone}

walk_bound :
    (fuel close i : ℕ) (w : Walk) (text : Bytes) (j : ℕ) (w' : Walk)
    → walk fuel close i w text ≡ ok (j, w')
    → (i ≤ j) × (j ≤ i + length text) × (0 < length text → i < j)
unfolding walk
walk_bound zero close i w text j w' h = absurd cc
walk_bound (suc fuel) close i w [] j w' h =
    let e : i ≡ j = (ok_pair h).0 in (omega arith, omega arith, λ g. absurd (omega arith))
walk_bound (suc fuel) close i w (ch ∷ text) j w' h = elim (Bool-cases (ch == b'"')) [
  | inl e ↦
      let (end, ended, rest) =
        >>=-eq-ok (string_end (suc (length text)) (i + 1) text) _ (rw e at h) in
      let (low, high) = string_end_bound (suc (length text)) (i + 1) text end ended in
      let left = length-drop (end - i) text in
      let (a, b, c) = walk_bound fuel close (end + 1) _ (drop (end - i) text) j w' rest in
      (omega arith, omega arith, λ g. omega arith)
  | inr e ↦
      let ((stop, next), made, rest) = >>=-eq-ok (walk_char close ch w) _ (rw e at h) in
      elim (Bool-cases stop) [
        | inl t ↦
            let last : i + 1 ≡ j = (ok_pair (rw t at rest)).0 in
            (omega arith, omega arith, λ g. omega arith)
        | inr t ↦
            let (a, b, c) = walk_bound fuel close (i + 1) next text j w' (rw t at rest) in
            (omega arith, omega arith, λ g. omega arith)
      ]
]

-- A value that a scan of a text at `pos` gives.
abbrev pub IsFound : ℕ → ℕ → JsonTok → ℕ → Type 0
IsFound pos len tok next = (pos < next) × (next ≤ len) × (pos ≤ tok.start) × IsSpan next tok

scan_string-IsFound :
    (pos : ℕ) (text : Bytes) (tok : JsonTok) (next : ℕ)
    → scan_string pos text ≡ ok (tok, next)
    → IsFound pos (pos + suc (length text)) tok next
unfolding scan_string scanned
scan_string-IsFound pos text tok next h =
    let (close, ended, last) = >>=-eq-ok (string_end (suc (length text)) (pos + 1) text) _ h in
    let (low, high) = string_end_bound (suc (length text)) (pos + 1) text close ended in
    let (t, n) = ok_pair last in
    subst (λ (u : JsonTok). IsFound pos (pos + suc (length text)) u next) t
      (omega arith, omega arith, omega arith, (close, refl, low, omega arith))

some_primitive : (text : Bytes) → check_primitive text ≡ ok tt → 0 < length text
unfolding check_primitive
some_primitive [] h = cc
some_primitive (c ∷ text) h = omega arith

scan_primitive-IsFound :
    (pos : ℕ) (text : Bytes) (tok : JsonTok) (next : ℕ)
    → scan_primitive pos text ≡ ok (tok, next)
    → IsFound pos (pos + length text) tok next
unfolding scan_primitive scanned
scan_primitive-IsFound pos text tok next h =
    let k = count_while (λ c. not (is_primitive_end c)) text in
    let bound = count_while_bound (λ c. not (is_primitive_end c)) text in
    let (u, checked, last) = >>=-eq-ok (check_primitive (take k text)) _ h in
    let given = some_primitive (take k text) checked in
    let size = length-take k text in
    let (t, n) = ok_pair last in
    subst (λ (u : JsonTok). IsFound pos (pos + length text) u next) t
      (omega arith, omega arith, omega arith, (pos + k, refl, omega arith, omega arith))

scan_container-IsFound :
    (is_object : Bool) (pos : ℕ) (text : Bytes) (tok : JsonTok) (next : ℕ)
    → 0 < length text
    → scan_container is_object pos text ≡ ok (tok, next)
    → IsFound pos (pos + length text) tok next
unfolding scan_container scanned
scan_container-IsFound is_object pos text tok next given h =
    let start : Walk = record { depth = 0; commas = 0; empty = true } in
    let close : ℕ = if is_object then b'}' else b']' in
    let ((i, w), walked, rest) = >>=-eq-ok (walk (suc (length text)) close pos start text) _ h in
    let (shut, last) = fail_if-eq-ok (not (w.depth == 0)) json _ rest in
    let (a, b, c) = walk_bound (suc (length text)) close pos start text i w walked in
    let on = c given in
    let (t, n) = ok_pair last in
    subst (λ (u : JsonTok). IsFound pos (pos + length text) u next) t
      (omega arith, omega arith, omega arith, (i, refl, omega arith, omega arith))

scan_value-IsFound :
    (pos : ℕ) (text : Bytes) (tok : JsonTok) (next : ℕ)
    → scan_value pos text ≡ ok (tok, next)
    → (0 < length text) × IsFound pos (pos + length text) tok next
unfolding scan_value
scan_value-IsFound pos [] tok next h = absurd cc
scan_value-IsFound pos (c ∷ text) tok next h = (
  omega arith,
  elim (Bool-cases (c == b'"')) [
    | inl e ↦ scan_string-IsFound pos text tok next (rw e at h)
    | inr e ↦ elim (Bool-cases (c == b'{')) [
      | inl f ↦ scan_container-IsFound true pos (c ∷ text) tok next (omega arith) (rw (e, f) at h)
      | inr f ↦ elim (Bool-cases (c == b'[')) [
        | inl g ↦
            scan_container-IsFound false pos (c ∷ text) tok next (omega arith) (rw (e, f, g) at h)
        | inr g ↦ scan_primitive-IsFound pos (c ∷ text) tok next (rw (e, f, g) at h)
      ]
    ]
  ],
)

skip_ws_at_onward : (js : Bytes) (len pos : ℕ) → pos ≤ skip_ws_at js len pos
unfolding skip_ws_at
skip_ws_at_onward js len pos = omega arith

-- Where a shallow scan from `pos` gives a value, the value's token is closed and lies in the text
-- between `pos` and the place behind the value, and that place is behind `pos`, within the length
-- given and within the text.
pub json_scan-IsFound :
    (js : Bytes) (len pos : ℕ) (tok : JsonTok) (next : ℕ)
    → json_scan js len pos ≡ ok (tok, next)
    → IsFound pos len tok next × (next ≤ length js)
unfolding json_scan
json_scan-IsFound js len pos tok next h =
    let at = skip_ws_at js len pos in
    let (early, found) = fail_if-eq-ok (ltb int_max len) invalid _ h in
    let (given, (on, inside, start, span)) =
      scan_value-IsFound at (text_at js len at) tok next found in
    let whole = length-take len js in
    let size = length-drop at (take len js) in
    let onward : pos ≤ at = skip_ws_at_onward js len pos in
    ((omega arith, omega arith, omega arith, span), omega arith)

walk_char-IsDone : (close ch : ℕ) (w : Walk) → IsDone (walk_char close ch w)
unfolding walk_char
walk_char-IsDone close ch w = λ h. ground arith

walk-IsDone :
    (fuel close i : ℕ) (w : Walk) (text : Bytes)
    → length text < fuel
    → IsDone (walk fuel close i w text)
unfolding walk
walk-IsDone zero close i w text h = absurd (omega arith)
walk-IsDone (suc fuel) close i w [] h = λ g. cc
walk-IsDone (suc fuel) close i w (ch ∷ text) h = elim (Bool-cases (ch == b'"')) [
  | inl e ↦ rw e (
      >>=-IsDone (string_end (suc (length text)) (i + 1) text) _
        (string_end-IsDone (suc (length text)) (i + 1) text (omega arith))
        (λ end ended.
          walk-IsDone fuel close (end + 1) _ (drop (end - i) text)
            (omega (arith, length-drop (end - i) text))))
  | inr e ↦ rw e (
      >>=-IsDone (walk_char close ch w) _ (walk_char-IsDone close ch w) (λ a made.
        elim (Bool-cases a.0) [
          | inl t ↦ rw t (λ g. cc)
          | inr t ↦ rw t (walk-IsDone fuel close (i + 1) a.1 text (omega arith))
        ]))
]

scan_value-IsDone : (pos : ℕ) (text : Bytes) → IsDone (scan_value pos text)
unfolding scan_value scan_string scan_container scan_primitive
scan_value-IsDone pos [] = λ h. cc
scan_value-IsDone pos (c ∷ text) = elim (Bool-cases (c == b'"')) [
  | inl e ↦ rw e (
      >>=-IsDone (string_end (suc (length text)) (pos + 1) text) _
        (string_end-IsDone (suc (length text)) (pos + 1) text (omega arith)) (λ close ended g. cc))
  | inr e ↦ elim (Bool-cases (c == b'{')) [
    | inl f ↦ rw (e, f) (container true)
    | inr f ↦ elim (Bool-cases (c == b'[')) [
      | inl g ↦ rw (e, f, g) (container false)
      | inr g ↦
          rw (e, f, g)
            (>>=-IsDone (check_primitive (take (count_while _ (c ∷ text)) (c ∷ text))) _
              (check_primitive-IsDone _) (λ u checked k. cc))
    ]
  ]
]
  where
    container : (is_object : Bool) → IsDone (scan_container is_object pos (c ∷ text))
    container is_object =
        >>=-IsDone (walk (suc (length (c ∷ text))) _ pos _ (c ∷ text)) _
          (walk-IsDone (suc (length (c ∷ text))) (if is_object then b'}' else b']') pos
            (record { depth = 0; commas = 0; empty = true }) (c ∷ text) (omega arith))
          (λ a walked. fail_if-IsDone (not (a.1.depth == 0)) json _ (λ shut g. cc))

pub json_scan-IsDone : (js : Bytes) (len pos : ℕ) → IsDone (json_scan js len pos)
unfolding json_scan
json_scan-IsDone js len pos =
    fail_if-IsDone (ltb int_max len) invalid _
      (λ small. scan_value-IsDone (skip_ws_at js len pos) (text_at js len (skip_ws_at js len pos)))
