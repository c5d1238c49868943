-- ===== src/Wire/Parse.antt =====
-- src/wire.c, lines 144 to 264: reading a JSON frame. A slice of the input is the bytes it has, none
-- where the key is absent; a field of the frame is what its buffer holds.
use thalovant_embedded_c.Base.{
  ℕ, ◌-◌, Bool, true, false, not, ◌&&◌, ◌||◌, Option, none, some, List, [], Bytes, codes, length,
  take, drop, if◌then◌else◌, Result, ok, err, json, missing, ◌>>=◌, ◌>>◌, fail_if, beq,
}
use thalovant_embedded_c.Json.{JsonTok, object, string}
use thalovant_embedded_c.Json.Values.{json_parse}
use thalovant_embedded_c.Json.Lookup.{tok_at, same_kind, tok_text, json_object_get}
use thalovant_embedded_c.Json.Coerce.{c_string, json_raw_span, json_is_truthy}
use thalovant_embedded_c.Json.Escape.{json_unescape}

-- thalovant_wire_frame; has_node and the like are some, or none.
pub record WireFrame : Type 0 where
  pub msg_type : Bytes
  pub payload : Option Bytes
  pub metadata : Option Bytes
  pub node : Option Bytes
  pub target_site_id : Option Bytes
  pub target_pubkey : Option Bytes
  pub source_peer : Option Bytes

unfoldable pub wire_max_tokens : ℕ
wire_max_tokens = 256

-- The text of a string token, unescaped into a buffer. A token of the tokenizer is closed.
unfoldable pub unescape_tok : Bytes → JsonTok → ℕ → Result Bytes
unescape_tok js tok room = unescaped (tok_text js tok)
  where
    unescaped : Option Bytes → Result Bytes
    unescaped none = err json
    unescaped (some text) = json_unescape text (length text) room

unfoldable pub copy_optional_string : Bytes → List JsonTok → ℕ → Bytes → ℕ → Result (Option Bytes)
copy_optional_string js toks obj key room = copied (json_object_get js toks obj key)
  where
    copied : Option ℕ → Result (Option Bytes)
    copied none = ok none
    copied (some value) =
        let text = unescape_tok js (tok_at toks value) room >>= λ out. ok (some out) in
        if same_kind (tok_at toks value).kind string then text else ok none

-- json + start, and end - start bytes.
unfoldable pub raw_slice : Bytes → JsonTok → Bytes
raw_slice js tok = between (json_raw_span tok)
  where
    between : ℕ × Option ℕ → Bytes
    between (start, none) = []
    between (start, some end) = take (end - start) (drop start js)

unfoldable pub slice_of : Bytes → List JsonTok → Bytes → Option Bytes
slice_of js toks key = sliced (json_object_get js toks 0 key)
  where
    sliced : Option ℕ → Option Bytes
    sliced none = none
    sliced (some value) = some (raw_slice js (tok_at toks value))

unfoldable pub required_string : Bytes → List JsonTok → Bytes → ℕ → Result Bytes
required_string js toks key room = needed (json_object_get js toks 0 key)
  where
    needed : Option ℕ → Result Bytes
    needed none = err missing
    needed (some value) =
        fail_if (not (same_kind (tok_at toks value).kind string)) missing
        >> unescape_tok js (tok_at toks value) room

unfoldable pub frame_of : Bytes → List JsonTok → Result WireFrame
frame_of js toks = do
  fail_if (not (same_kind (tok_at toks 0).kind object)) json
  msg_type ← required_string js toks (codes "msg_type") 32
  node ← copy_optional_string js toks 0 (codes "node") 96
  target_site_id ← copy_optional_string js toks 0 (codes "target_site_id") 64
  target_pubkey ← copy_optional_string js toks 0 (codes "target_pubkey") 256
  source_peer ← copy_optional_string js toks 0 (codes "source_peer") 96
  ok (record {
    msg_type = msg_type;
    payload = slice_of js toks (codes "payload");
    metadata = slice_of js toks (codes "metadata");
    node = node;
    target_site_id = target_site_id;
    target_pubkey = target_pubkey;
    source_peer = source_peer;
  })

unfoldable pub wire_parse : Bytes → Result WireFrame
wire_parse js = do toks ← json_parse (some js) wire_max_tokens; frame_of js toks

unfoldable pub found : Option ℕ → Bool
found none = false
found (some value) = true

-- Of the tokens of an object, where the text is one.
unfoldable pub when_object : Result (List JsonTok) → (List JsonTok → Bool) → Bool
when_object (ok toks) test = same_kind (tok_at toks 0).kind object && test toks
when_object _ test = false

unfoldable pub wire_is_encrypted : Bytes → Bool
wire_is_encrypted js =
    when_object (json_parse (some js) wire_max_tokens)
      (λ toks. found (json_object_get js toks 0 (codes "ciphertext")))

unfoldable pub has_truthy : (Bytes → Option Bool) → Bytes → List JsonTok → Bytes → Bool
has_truthy to_double js toks key = truthy (json_object_get js toks 0 key)
  where
    truthy : Option ℕ → Bool
    truthy none = false
    truthy (some value) = json_is_truthy to_double js (tok_at toks value)

unfoldable pub wire_is_preshared_handshake : (Bytes → Option Bool) → WireFrame → Bool
wire_is_preshared_handshake to_double frame = with_payload frame.payload
  where
    with_payload : Option Bytes → Bool
    with_payload none = false
    with_payload (some payload) =
        let name = c_string frame.msg_type in
        (beq name (codes "handshake") || beq name (codes "shake"))
        && when_object (json_parse (some payload) 64) (λ toks.
          has_truthy to_double payload toks (codes "preshared_key")
          && not (has_truthy to_double payload toks (codes "handshake"))
          && not (has_truthy to_double payload toks (codes "envelope")))
