-- ===== src/Intents.antt =====
-- src/intents.c, lines 12 to 262: the queries of include/thalovant/intents.h. A string that may
-- be NULL is an option, and so are the request and the buffer, which is its capacity here. What
-- stands in the buffer is `out`, so that its length is the `pos` of the source.
pub mod Queries
mod Examples
use thalovant_embedded_c.Base.{
  ℕ, Bool, Option, none, some, [], ◌∷◌, ◌++◌, Bytes, codes, if◌then◌else◌, Result, ok, err, invalid,
  ◌>>=◌,
}
use thalovant_embedded_c.Writer.{int_return, append, append_pieces}
use thalovant_embedded_c.Wire.{HiveMessage, or_default, serialize}

pub record IntentListRequest : Type 0 where
  pub lang : Option Bytes
  pub session_id : Option Bytes
  pub site_id : Option Bytes
  pub request_id : Option Bytes
  pub include_definitions : Bool

pub record IntentDescribeRequest : Type 0 where
  pub skill_id : Option Bytes
  pub intent_name : Option Bytes
  pub lang : Option Bytes
  pub session_id : Option Bytes
  pub site_id : Option Bytes
  pub request_id : Option Bytes

-- append_json_string of this file, whose three parts are each checked by `append`.
unfoldable pub append_quoted : ℕ → Bytes → Bytes → Result Bytes
append_quoted cap out text = do
  out' ← append cap out (codes "\"")
  out'' ← append_pieces cap out' text
  append cap out'' (codes "\"")

-- if (text != NULL) { append(key); append_json_string(text); }
unfoldable pub append_optional : ℕ → Bytes → Bytes → Option Bytes → Result Bytes
append_optional cap out key none = ok out
append_optional cap out key (some text) = do out' ← append cap out key; append_quoted cap out' text

unfoldable pub append_context :
    ℕ → Bytes → Option Bytes → Bytes → Option Bytes → Bytes → Result Bytes
append_context cap out lang session_id site_id request_id = do
  o1 ← append cap out (codes ",\"context\":{\"request_id\":")
  o2 ← append_quoted cap o1 request_id
  o3 ← append cap o2 (codes ",\"thalovant_request_id\":")
  o4 ← append_quoted cap o3 request_id
  o5 ← append_optional cap o4 (codes ",\"lang\":") lang
  o6 ← append cap o5 (codes ",\"session\":{\"session_id\":")
  o7 ← append_quoted cap o6 session_id
  o8 ← append_optional cap o7 (codes ",\"site_id\":") site_id
  o9 ← append_optional cap o8 (codes ",\"lang\":") lang
  o10 ← append cap o9 (codes ",\"request_id\":")
  o11 ← append_quoted cap o10 request_id
  append cap o11 (codes "}}}")

-- A pointer that a builder refuses as NULL.
unfoldable pub required {ℓ} : {A : Type ℓ} → Option A → Result A
required none = err invalid
required (some a) = ok a

-- A string that a builder refuses as NULL or empty.
unfoldable pub required_text : Option Bytes → Result Bytes
required_text none = err invalid
required_text (some []) = err invalid
required_text (some (c ∷ text)) = ok (c ∷ text)

-- The member that asks for the definitions, behind the language where there is one.
unfoldable pub definitions_member : Option Bytes → Bytes
definitions_member none = codes "\"include_definitions\":true"
definitions_member (some lang) = codes ",\"include_definitions\":true"

-- The writes of a builder; `int_return` is its return.
unfoldable pub write_list_payload :
    Option IntentListRequest → Option Bytes → Option ℕ → Result Bytes
write_list_payload request lang room = do
  r ← required request
  cap ← required room
  session_id ← required r.session_id
  request_id ← required_text r.request_id
  o1 ← append cap [] (codes "{\"type\":\"ovos.intent.list\",\"data\":{")
  o2 ← append_optional cap o1 (codes "\"lang\":") lang
  o3 ← if r.include_definitions then append cap o2 (definitions_member lang) else ok o2
  o4 ← append cap o3 (codes "}")
  append_context cap o4 lang session_id r.site_id request_id

unfoldable pub build_list_payload :
    Option IntentListRequest → Option Bytes → Option ℕ → Result Bytes
build_list_payload request lang room = write_list_payload request lang room >>= int_return

abbrev pub default_lang : Bytes
default_lang = codes "en-us"

-- request != NULL && request->lang != NULL ? request->lang : "en-us"
unfoldable pub lang_of : Option IntentListRequest → Bytes
lang_of none = default_lang
lang_of (some request) = or_default request.lang default_lang

unfoldable pub intent_list_build_payload : Option IntentListRequest → Option ℕ → Result Bytes
intent_list_build_payload request room = build_list_payload request (some (lang_of request)) room

unfoldable pub intent_list_all_build_payload : Option IntentListRequest → Option ℕ → Result Bytes
intent_list_all_build_payload request room = build_list_payload request none room

unfoldable pub write_describe_payload : Option IntentDescribeRequest → Option ℕ → Result Bytes
write_describe_payload request room = do
  r ← required request
  cap ← required room
  skill_id ← required_text r.skill_id
  intent_name ← required_text r.intent_name
  session_id ← required r.session_id
  request_id ← required_text r.request_id
  o1 ← append cap [] (codes "{\"type\":\"ovos.intent.describe\",\"data\":{\"skill_id\":")
  o2 ← append_quoted cap o1 skill_id
  o3 ← append cap o2 (codes ",\"intent_name\":")
  o4 ← append_quoted cap o3 intent_name
  o5 ← append cap o4 (codes ",\"lang\":")
  o6 ← append_quoted cap o5 (or_default r.lang default_lang)
  o7 ← append cap o6 (codes "}")
  append_context cap o7 (some (or_default r.lang default_lang)) session_id r.site_id request_id

unfoldable pub intent_describe_build_payload :
    Option IntentDescribeRequest → Option ℕ → Result Bytes
intent_describe_build_payload request room = write_describe_payload request room >>= int_return

unfoldable pub write_fallback_payload : Option IntentListRequest → Option ℕ → Result Bytes
write_fallback_payload request room = do
  r ← required request
  cap ← required room
  session_id ← required r.session_id
  request_id ← required_text r.request_id
  o1 ← append cap [] (codes "{\"type\":\"ovos.skills.fallback.list\",\"data\":{}")
  append_context cap o1 (some (or_default r.lang default_lang)) session_id r.site_id request_id

unfoldable pub fallback_list_build_payload : Option IntentListRequest → Option ℕ → Result Bytes
fallback_list_build_payload request room = write_fallback_payload request room >>= int_return

unfoldable pub write_skills_payload : Option IntentListRequest → Option ℕ → Result Bytes
write_skills_payload request room = do
  r ← required request
  cap ← required room
  session_id ← required r.session_id
  request_id ← required_text r.request_id
  o1 ← append cap [] (codes "{\"type\":\"ovos.skills.list\",\"data\":{}")
  append_context cap o1 none session_id r.site_id request_id

unfoldable pub skills_list_build_payload : Option IntentListRequest → Option ℕ → Result Bytes
skills_list_build_payload request room = write_skills_payload request room >>= int_return

-- TLV_INTENT_PAYLOAD_CAP
abbrev pub intent_payload_cap : ℕ
intent_payload_cap = 1024

-- { "bus", payload, NULL, NULL, NULL, NULL, NULL, NULL }
abbrev pub query_message : Bytes → HiveMessage
query_message payload = record {
  msg_type = some (codes "bus");
  payload_json = some payload;
  metadata_json = none;
  route_json = none;
  node = none;
  target_site_id = none;
  target_pubkey = none;
  source_peer = none;
}

-- A payload in its own buffer, then the frame around it.
unfoldable pub build_frame {ℓ} :
    {A : Type ℓ} → (Option A → Option ℕ → Result Bytes) → Option A → Option ℕ → Result Bytes
build_frame build request room = do
  payload ← build request (some intent_payload_cap)
  serialize (some (query_message payload)) room

unfoldable pub intent_list_build_frame : Option IntentListRequest → Option ℕ → Result Bytes
intent_list_build_frame = build_frame intent_list_build_payload

unfoldable pub intent_list_all_build_frame : Option IntentListRequest → Option ℕ → Result Bytes
intent_list_all_build_frame = build_frame intent_list_all_build_payload

unfoldable pub intent_describe_build_frame : Option IntentDescribeRequest → Option ℕ → Result Bytes
intent_describe_build_frame = build_frame intent_describe_build_payload

unfoldable pub fallback_list_build_frame : Option IntentListRequest → Option ℕ → Result Bytes
fallback_list_build_frame = build_frame fallback_list_build_payload

unfoldable pub skills_list_build_frame : Option IntentListRequest → Option ℕ → Result Bytes
skills_list_build_frame = build_frame skills_list_build_payload
