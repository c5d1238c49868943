-- ===== src/Intents/Examples.antt =====
-- Runs of src/intents.c at concrete inputs.
use thalovant_embedded_c.Base.{true, none, some, ◌≡◌, refl, codes, ok, err, nomem, invalid, arith}
use thalovant_embedded_c.Writer.Laws.{whole}
use thalovant_embedded_c.Intents.{
  write_skills_payload, write_list_payload, required, required_text, append_context, append_quoted,
  append_optional, build_list_payload, IntentListRequest, IntentDescribeRequest,
  intent_list_build_payload, intent_list_all_build_payload, intent_describe_build_frame,
  fallback_list_build_payload, skills_list_build_payload,
}
use thalovant_embedded_c.Writer.{int_return, append, append_pieces, json_piece}
use thalovant_embedded_c.Intents.Queries.{
  list_text, event_text, describe_text, framed, list_payloads-whole, describe_frame-whole,
}

abbrev list_request : IntentListRequest
list_request = record {
  lang = some (codes "nl");
  session_id = some (codes "s\"1");
  site_id = some (codes "home");
  request_id = some (codes "r1");
  include_definitions = true;
}

abbrev no_request_id : IntentListRequest
no_request_id = record {
  lang = none;
  session_id = some (codes "s");
  site_id = none;
  request_id = some (codes "");
  include_definitions = true;
}

skills_payload :
    skills_list_build_payload (some list_request) (some 256)
    ≡ ok (
        codes
          "{\"type\":\"ovos.skills.list\",\"data\":{},\"context\":{\"request_id\":\"r1\",\"thalovant_request_id\":\"r1\",\"session\":{\"session_id\":\"s\\\"1\",\"site_id\":\"home\",\"request_id\":\"r1\"}}}")
unfolding skills_list_build_payload write_skills_payload int_return required required_text append
    append_context append_quoted append_pieces json_piece append_optional
skills_payload = refl

no_id_is_refused : intent_list_build_payload (some no_request_id) (some 256) ≡ err invalid
unfolding intent_list_build_payload build_list_payload write_list_payload required required_text
no_id_is_refused = refl

small_buffer_is_refused : intent_list_all_build_payload (some list_request) (some 20) ≡ err nomem
unfolding intent_list_all_build_payload build_list_payload write_list_payload required required_text
    append
small_buffer_is_refused = refl

list_payloads-whole_example :
    (intent_list_build_payload (some list_request) (some 256)
      ≡ whole 256 (list_text list_request (some (codes "nl")) (codes "s\"1") (codes "r1")))
    × (intent_list_all_build_payload (some list_request) (some 256)
        ≡ whole 256 (list_text list_request none (codes "s\"1") (codes "r1")))
    × (fallback_list_build_payload (some list_request) (some 256)
        ≡ whole 256 (
            event_text
              (codes "ovos.skills.fallback.list")
              (some (codes "nl"))
              (codes "s\"1")
              (some (codes "home"))
              (codes "r1")))
    × (skills_list_build_payload (some list_request) (some 256)
        ≡ whole 256 (
            event_text
              (codes "ovos.skills.list")
              none
              (codes "s\"1")
              (some (codes "home"))
              (codes "r1")))
unfolding required required_text
list_payloads-whole_example =
    list_payloads-whole list_request 256 (codes "s\"1") (codes "r1") (refl, refl)

abbrev describe_request : IntentDescribeRequest
describe_request = record {
  skill_id = some (codes "weather");
  intent_name = some (codes "rain");
  lang = none;
  session_id = some (codes "s1");
  site_id = none;
  request_id = some (codes "r1");
}

describe_frame-whole_example :
    intent_describe_build_frame (some describe_request) (some 600)
    ≡ framed
        (describe_text describe_request (codes "weather") (codes "rain") (codes "s1") (codes "r1"))
        600
unfolding required required_text
describe_frame-whole_example =
    describe_frame-whole describe_request 600 (codes "weather") (codes "rain") (codes "s1")
      (codes "r1") (refl, refl) refl refl (omega arith)
