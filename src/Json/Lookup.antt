-- ===== src/Json/Lookup.antt =====
-- src/json.c, lines 288 to 341: finding a value among the tokens. An index is one of the token array or `none` for
-- THALOVANT_ERR_MISSING.
use thalovant_embedded_c.Base.{
  ℕ, zero, suc, ◌+◌, ◌-◌, Bool, true, false, not, ◌&&◌, ◌||◌, Option, none, some, List, [], ◌∷◌,
  Bytes, codes, length, take, drop, get_or, ltb, leb, if◌then◌else◌, beq,
}
use thalovant_embedded_c.Json.{JsonType, JsonTok, object, array, string, primitive, undefined}

-- toks[idx], where idx is below the count.
unfoldable pub tok_at : List JsonTok → ℕ → JsonTok
tok_at toks idx =
    get_or toks idx (record { kind = undefined; start = 0; finish = none; size = 0; parent = none })

-- The loop of thalovant_json_skip over the children, on fuel: a call that goes on has a token less.
unfoldable pub skip_children : ℕ → List JsonTok → ℕ → ℕ → ℕ
skip_children zero toks left end = end
skip_children (suc fuel) toks zero end = end
skip_children (suc fuel) toks (suc left) end =
    let behind = skip_children fuel toks (tok_at toks end).size (end + 1) in
    let rest = skip_children fuel toks left behind in if leb (length toks) end then end else rest

unfoldable pub json_skip : List JsonTok → ℕ → ℕ
json_skip toks idx =
    if leb (length toks) idx
    then length toks
    else skip_children (length toks) toks (tok_at toks idx).size (idx + 1)

-- The bytes of the token; a token that is not closed has no length.
unfoldable pub tok_text : Bytes → JsonTok → Option Bytes
tok_text js tok = text_of tok.finish
  where
    text_of : Option ℕ → Option Bytes
    text_of none = none
    text_of (some end) =
        if leb tok.start end then some (take (end - tok.start) (drop tok.start js)) else none

unfoldable pub same_kind : JsonType → JsonType → Bool
same_kind undefined undefined = true
same_kind object object = true
same_kind array array = true
same_kind string string = true
same_kind primitive primitive = true
same_kind _ _ = false

unfoldable pub text_is : Option Bytes → Bytes → Bool
text_is none str = false
text_is (some text) str = beq text str

unfoldable pub json_str_eq : Bytes → JsonTok → Bytes → Bool
json_str_eq js tok str = same_kind tok.kind string && text_is (tok_text js tok) str

-- The loop over the members that are left, from the key at `child`.
unfoldable pub find_member : Bytes → List JsonTok → Bytes → ℕ → ℕ → Option ℕ
find_member js toks key zero child = none
find_member js toks key (suc left) child =
    let rest = find_member js toks key left (json_skip toks child) in
    if leb (length toks) child
    then none
    else (if json_str_eq js (tok_at toks child) key && ltb (child + 1) (length toks)
        then some (child + 1)
        else rest)

unfoldable pub json_object_get : Bytes → List JsonTok → ℕ → Bytes → Option ℕ
json_object_get js toks obj key =
    if leb (length toks) obj || not (same_kind (tok_at toks obj).kind object)
    then none
    else find_member js toks key (tok_at toks obj).size (obj + 1)

unfoldable pub tok_is_null : Bytes → JsonTok → Bool
tok_is_null js tok = same_kind tok.kind primitive && text_is (tok_text js tok) (codes "null")

-- The value that was found, unless it is null; else what the later aliases give.
unfoldable pub unless_null : Bytes → List JsonTok → Option ℕ → Option ℕ → Option ℕ
unless_null js toks none later = later
unless_null js toks (some value) later =
    if tok_is_null js (tok_at toks value) then later else some value

unfoldable pub json_object_get_alias : Bytes → List JsonTok → ℕ → List Bytes → Option ℕ
json_object_get_alias js toks obj [] = none
json_object_get_alias js toks obj (alias ∷ aliases) =
    unless_null js toks (json_object_get js toks obj alias)
      (json_object_get_alias js toks obj aliases)
