-- ===== src/Ask.antt =====
-- src/ask.c, lines 11 to 189: the question of include/thalovant/ask.h, as payload and as frame. A
-- string that may be NULL is an option, and so are the request, the hints and the buffer, which is
-- its capacity here. What stands in the buffer is `out`.
pub mod Frame
mod Examples
use thalovant_embedded_c.Base.{
  ℕ, ◌+◌, ◌-◌, Bool, true, false, not, ◌&&◌, ◌||◌, Option, none, some, List, [], ◌∷◌, ◌++◌, Bytes,
  codes, if◌then◌else◌, Result, ok, err, invalid, ◌>>=◌, ◌>>◌, fail_if, trim_start, trim_end,
  is_space, ◌==◌, length, get_or, drop, beq,
}
use thalovant_embedded_c.Json.{JsonTok, JsonType, string, array, object}
use thalovant_embedded_c.Json.Values.{json_parse}
use thalovant_embedded_c.Json.Lookup.{same_kind}
use thalovant_embedded_c.Wire.{or_default}
use thalovant_embedded_c.Wire.Parse.{unescape_tok, wire_max_tokens}
use thalovant_embedded_c.Writer.{int_return, append}
use thalovant_embedded_c.Intents.{
  append_quoted, append_optional, required, required_text, default_lang,
}

pub record AskRequest : Type 0 where
  pub text : Option Bytes
  pub lang : Option Bytes
  pub session_id : Option Bytes
  pub site_id : Option Bytes
  pub request_id : Option Bytes

pub record AskHints : Type 0 where
  pub stt_lang : Option Bytes
  pub pipeline_json : Option Bytes
  pub location_json : Option Bytes

-- THALOVANT_ASK_TEXT_MAX
abbrev pub ask_text_max : ℕ
ask_text_max = 512

unfoldable pub trimmed : Bytes → Bytes
trimmed text = trim_end is_space (trim_start is_space text)

-- One stage behind what stands in the buffer, unless it is blank; and whether a stage stands there.
unfoldable pub append_stage : ℕ → Bytes → Bool → Bytes → Result (Bytes × Bool)
append_stage cap out started [] = ok (out, started)
append_stage cap out started (c ∷ stage) = do
  out' ← append cap out (if started then codes "," else codes ",\"pipeline\":[")
  out'' ← append_quoted cap out' (c ∷ stage)
  ok (out'', true)

unfoldable pub append_stages : ℕ → Bytes → Bytes → Bool → List JsonTok → Result (Bytes × Bool)
append_stages cap json out started [] = ok (out, started)
append_stages cap json out started (tok ∷ toks) = do
  fail_if (not (same_kind tok.kind string)) invalid
  stage ← unescape_tok json tok ask_text_max
  (out', started') ← append_stage cap out started (trimmed stage)
  append_stages cap json out' started' toks

unfoldable pub append_pipeline : ℕ → Bytes → Bytes → Result Bytes
append_pipeline cap out json = do
  toks ← json_parse (some json) wire_max_tokens
  (out', started) ← append_stages cap json out false (drop 1 toks)
  if started then append cap out' (codes "]") else ok out'

unfoldable pub starts_as : JsonType → List JsonTok → Bool
starts_as kind [] = false
starts_as kind (tok ∷ toks) = same_kind tok.kind kind

unfoldable pub validate_hint : Option Bytes → JsonType → Result {0} Unit
validate_hint none kind = ok tt
validate_hint (some json) kind = do
  toks ← json_parse (some json) wire_max_tokens
  fail_if (not (starts_as kind toks)) invalid

unfoldable pub validate_hints : Option AskHints → Result {0} Unit
validate_hints none = ok tt
validate_hints (some hints) =
    validate_hint hints.pipeline_json array >> validate_hint hints.location_json object

-- The pipeline of the hints, in the session.
unfoldable pub append_pipeline_hint : ℕ → Bytes → Option Bytes → Result Bytes
append_pipeline_hint cap out none = ok out
append_pipeline_hint cap out (some json) = append_pipeline cap out json

-- The language of the speech, unless it is blank.
unfoldable pub append_stt_lang : ℕ → Bytes → Bytes → Result Bytes
append_stt_lang cap out [] = ok out
append_stt_lang cap out (c ∷ hint) = do
  out' ← append cap out (codes ",\"stt_lang\":")
  append_quoted cap out' (c ∷ hint)

unfoldable pub append_location : ℕ → Bytes → Option Bytes → Result Bytes
append_location cap out none = ok out
append_location cap out (some json) =
    if beq json (codes "{}")
    then ok out
    else (append cap out (codes ",\"location\":") >>= λ out'. append cap out' json)

unfoldable pub hint_of : (AskHints → Option Bytes) → Option AskHints → Option Bytes
hint_of field none = none
hint_of field (some hints) = field hints

-- The writes of the builder of the payload; `int_return` is its return.
unfoldable pub write_ask_payload : Option AskRequest → Option AskHints → Option ℕ → Result Bytes
write_ask_payload request hints room = do
  r ← required request
  cap ← required room
  text ← required_text r.text
  session_id ← required r.session_id
  request_id ← required r.request_id
  _ ← validate_hints hints
  let lang = or_default r.lang default_lang
  o1 ← append cap [] (codes "{\"type\":\"recognizer_loop:utterance\",\"data\":{\"utterances\":[")
  o2 ← append_quoted cap o1 text
  o3 ← append cap o2 (codes "],\"lang\":")
  o4 ← append_quoted cap o3 lang
  o5 ← append cap o4 (codes "},\"context\":{\"request_id\":")
  o6 ← append_quoted cap o5 request_id
  o7 ← append cap o6 (codes ",\"thalovant_request_id\":")
  o8 ← append_quoted cap o7 request_id
  o9 ← append cap o8 (codes ",\"session\":{\"session_id\":")
  o10 ← append_quoted cap o9 session_id
  o11 ← append_optional cap o10 (codes ",\"site_id\":") r.site_id
  o12 ← append cap o11 (codes ",\"lang\":")
  o13 ← append_quoted cap o12 lang
  o14 ← append cap o13 (codes ",\"request_id\":")
  o15 ← append_quoted cap o14 request_id
  o16 ← append_pipeline_hint cap o15 (hint_of (λ h. h.pipeline_json) hints)
  o17 ← append cap o16 (codes "}")
  o18 ← append_stt_lang cap o17 (trimmed (or_default (hint_of (λ h. h.stt_lang) hints) []))
  o19 ← append_location cap o18 (hint_of (λ h. h.location_json) hints)
  append cap o19 (codes "}}")

unfoldable pub ask_build_payload_with_hints :
    Option AskRequest → Option AskHints → Option ℕ → Result Bytes
ask_build_payload_with_hints request hints room =
    write_ask_payload request hints room >>= int_return

unfoldable pub ask_build_payload : Option AskRequest → Option ℕ → Result Bytes
ask_build_payload request room = ask_build_payload_with_hints request none room

-- The bus envelope, with the payload built in its place in the caller's buffer: what follows it
-- stands where the int that its builder returned says.
unfoldable pub write_ask_frame : Option AskRequest → Option AskHints → Option ℕ → Result Bytes
write_ask_frame request hints room = do
  cap ← required room
  fail_if (cap == 0) invalid
  o1 ← append cap [] (codes "{\"msg_type\":\"bus\",\"payload\":")
  payload ← ask_build_payload_with_hints request hints (some (cap - length o1))
  append cap (o1 ++ payload) (
      codes
        ",\"metadata\":{},\"route\":[],\"node\":null,\"target_site_id\":null,\"target_pubkey\":null,\"source_peer\":null}")

unfoldable pub ask_build_frame_with_hints :
    Option AskRequest → Option AskHints → Option ℕ → Result Bytes
ask_build_frame_with_hints request hints room = write_ask_frame request hints room >>= int_return

unfoldable pub ask_build_frame : Option AskRequest → Option ℕ → Result Bytes
ask_build_frame request room = ask_build_frame_with_hints request none room
