-- ===== src/Json/Scan.antt =====
-- src/json.c, lines 615 to 792: the shallow scans, which read one value of a text without a token
-- array. The walk of a container and the loop over members are on fuel; every round moves on.
use thalovant_embedded_c.Base.{
  ℕ, zero, suc, ◌+◌, ◌-◌, Bool, true, false, not, ◌&&◌, ◌||◌, Option, none, some, [], ◌∷◌, Bytes,
  length, take, drop, get_or, int_max, ltb, leb, ◌==◌, if◌then◌else◌, Result, ok, err, stuck,
  invalid, json, missing, ◌>>=◌, ◌>>◌, fail_if,
}
use thalovant_embedded_c.Json.{
  JsonType, JsonTok, object, array, string, primitive, count_while, is_ws, string_end,
  check_primitive, is_primitive_end,
}
use thalovant_embedded_c.Json.Lookup.{json_str_eq}

-- The text from `pos` on, where it ends at `len`.
abbrev pub text_at : Bytes → ℕ → ℕ → Bytes
text_at js len pos = drop pos (take len js)

unfoldable pub skip_ws_at : Bytes → ℕ → ℕ → ℕ
skip_ws_at js len pos = pos + count_while is_ws (text_at js len pos)

unfoldable pub scanned : JsonType → ℕ → ℕ → ℕ → JsonTok
scanned kind start end size = record {
  kind = kind;
  start = start;
  finish = some end;
  size = size;
  parent = none;
}

-- What the walk through a container knows.
pub record Walk : Type 0 where
  pub depth : ℕ
  pub commas : ℕ
  pub empty : Bool

-- One character that is not a quote: the walk behind it, or its end at the bracket that closes it.
unfoldable pub walk_char : ℕ → ℕ → Walk → Result (Bool × Walk)
walk_char close ch w =
    if ch == b'{' || ch == b'['
    then ok
        (false, record w { depth = w.depth + 1; empty = if ltb 0 w.depth then false else w.empty })
    else (if ch == b'}' || ch == b']'
        then (fail_if (w.depth - 1 == 0 && not (ch == close)) json
            >> ok (w.depth - 1 == 0, record w { depth = w.depth - 1 }))
        else (if w.depth == 1
            then (if ch == b','
                then ok (false, record w { commas = w.commas + 1 })
                else ok (false, record w { empty = is_ws ch && w.empty }))
            else ok (false, w)))

-- The loop: where it stops, and what it knows there.
unfoldable pub walk : ℕ → ℕ → ℕ → Walk → Bytes → Result (ℕ × Walk)
walk zero close i w text = stuck
walk (suc fuel) close i w [] = ok (i, w)
walk (suc fuel) close i w (ch ∷ text) =
    if ch == b'"'
    then (string_end (suc (length text)) (i + 1) text >>= λ end.
        walk fuel close (end + 1) (record w { empty = false }) (drop (end - i) text))
    else (walk_char close ch w >>= λ (stop, next). elim stop [
      | true ↦ ok (i + 1, next)
      | false ↦ walk fuel close (i + 1) next text
    ])

unfoldable pub scan_container : Bool → ℕ → Bytes → Result (JsonTok × ℕ)
scan_container is_object pos text = do
  (i, w) ←
      walk (suc (length text)) (if is_object then b'}' else b']') pos
        (record { depth = 0; commas = 0; empty = true }) text
  fail_if (not (w.depth == 0)) json
  ok (scanned (if is_object then object else array) pos i (if w.empty then 0 else w.commas + 1), i)

unfoldable pub scan_string : ℕ → Bytes → Result (JsonTok × ℕ)
scan_string pos text = do
  close ← string_end (suc (length text)) (pos + 1) text
  ok (scanned string (pos + 1) close 0, close + 1)

unfoldable pub scan_primitive : ℕ → Bytes → Result (JsonTok × ℕ)
scan_primitive pos text = do
  let n = count_while (λ c. not (is_primitive_end c)) text
  check_primitive (take n text)
  ok (scanned primitive pos (pos + n) 0, pos + n)

-- The value at `pos`, which is not a space.
unfoldable pub scan_value : ℕ → Bytes → Result (JsonTok × ℕ)
scan_value pos [] = err json
scan_value pos (c ∷ text) =
    if c == b'"'
    then scan_string pos text
    else (if c == b'{'
        then scan_container true pos (c ∷ text)
        else (if c == b'['
            then scan_container false pos (c ∷ text)
            else scan_primitive pos (c ∷ text)))

unfoldable pub json_scan : Bytes → ℕ → ℕ → Result (JsonTok × ℕ)
json_scan js len pos = do
  let at = skip_ws_at js len pos
  fail_if (ltb int_max len) invalid
  scan_value at (text_at js len at)

-- js[pos] is the character, below the end.
unfoldable pub char_is : Bytes → ℕ → ℕ → ℕ → Bool
char_is js end pos c = ltb pos end && (get_or js pos 0 == c)

-- Behind the comma that a member other than the first needs.
unfoldable pub behind_comma : Bytes → ℕ → Bool → ℕ → Result ℕ
behind_comma js end true pos = ok pos
behind_comma js end false pos = do
  fail_if (not (char_is js end pos b',')) json
  let next = skip_ws_at js end (pos + 1)
  fail_if (leb end next) json
  ok next

-- One member: its name, its value, and where it ends.
unfoldable pub scan_member : Bytes → ℕ → ℕ → Result (JsonTok × JsonTok × ℕ)
scan_member js end pos = do
  fail_if (not (char_is js end pos b'"')) json
  (name, next) ← json_scan js end pos
  let colon = skip_ws_at js end next
  fail_if (not (char_is js end colon b':')) json
  (candidate, last) ← json_scan js end (colon + 1)
  ok (name, candidate, last)

unfoldable pub found_or_missing : Option JsonTok → Result JsonTok
found_or_missing none = err missing
found_or_missing (some tok) = ok tok

unfoldable pub keep_first : Option JsonTok → Bool → JsonTok → Option JsonTok
keep_first (some tok) same candidate = some tok
keep_first none same candidate = if same then some candidate else none

-- The loop of thalovant_json_scan_key.
unfoldable pub scan_members : ℕ → Bytes → ℕ → Bytes → Bool → Option JsonTok → ℕ → Result JsonTok
scan_members zero js end key first matched pos = stuck
scan_members (suc fuel) js end key first matched pos = do
  let at = skip_ws_at js end pos
  fail_if (leb end at) json
  elim (get_or js at 0 == b'}') [
    | true ↦ fail_if (not (at + 1 == end)) json >> found_or_missing matched
    | false ↦ behind_comma js end first at >>= λ start.
        scan_member js end start >>= λ (name, candidate, next).
        scan_members fuel js end key false (keep_first matched (json_str_eq js name key) candidate)
          next
  ]

unfoldable pub json_scan_key : Bytes → JsonTok → Bytes → Result JsonTok
json_scan_key js obj key = elim obj.finish [
  | none ↦ err invalid
  | some end ↦ elim obj.kind [
    | object ↦
        fail_if (leb end obj.start) invalid
        >> scan_members (suc end) js end key true none (obj.start + 1)
    | _ ↦ err invalid
  ]
]

-- What the next call of the iterator is given: the element, or none at the end of the array.
unfoldable pub scan_element : Bytes → ℕ → Bool → ℕ → Result (Option JsonTok × ℕ)
scan_element js end first pos = do
  fail_if (leb end pos) json
  elim (get_or js pos 0 == b']') [
    | true ↦ ok (none, pos)
    | false ↦ next_element js end first pos >>= λ start.
        json_scan js end start >>= λ (elem, next). ok (some elem, next)
  ]
  where
    next_element : Bytes → ℕ → Bool → ℕ → Result ℕ
    next_element js' end' true at = ok at
    next_element js' end' false at = do
      fail_if (not (char_is js' end' at b',')) json
      let start = skip_ws_at js' end' (at + 1)
      fail_if (leb end' start || char_is js' end' start b']' || char_is js' end' start b',') json
      ok start

unfoldable pub json_scan_next : Bytes → JsonTok → ℕ → Result (Option JsonTok × ℕ)
json_scan_next js arr cursor = elim arr.finish [
  | none ↦ err invalid
  | some end ↦ elim arr.kind [
    | array ↦
        fail_if (leb end arr.start) invalid
        >> scan_element js end (cursor == 0)
            (skip_ws_at js end (if cursor == 0 then arr.start + 1 else cursor))
    | _ ↦ err invalid
  ]
]
