-- ===== src/Ask/Examples.antt =====
-- Runs of src/ask.c at concrete inputs.
use thalovant_embedded_c.Base.{length, some, none, ◌≡◌, refl, codes, arith}
use thalovant_embedded_c.Writer.Laws.{whole, literal, pieces}
use thalovant_embedded_c.Writer.{json_piece}
use thalovant_embedded_c.Intents.Queries.{member_text}
use thalovant_embedded_c.Wire.{serialize}
use thalovant_embedded_c.Wire.Frame.{frame_text}
use thalovant_embedded_c.Intents.{required, required_text, query_message}
use thalovant_embedded_c.Ask.{AskRequest, ask_build_frame}
use thalovant_embedded_c.Ask.Frame.{ask_text, ask_frame-whole}

abbrev question : AskRequest
question = record {
  text = some (codes "what's \"up\"?");
  lang = none;
  session_id = some (codes "s1");
  site_id = some (codes "home");
  request_id = some (codes "r1");
}

payload_size : length (ask_text question (codes "what's \"up\"?") (codes "s1") (codes "r1")) ≡ 230
unfolding ask_text literal pieces json_piece member_text
payload_size = refl

ask_frame-whole_example :
    (ask_build_frame (some question) (some 512)
      ≡ serialize
          (some
            (query_message (ask_text question (codes "what's \"up\"?") (codes "s1") (codes "r1"))))
          (some 512))
    × (ask_build_frame (some question) (some 512)
        ≡ whole 512 (
            frame_text (codes "bus") (
              query_message
                (ask_text question (codes "what's \"up\"?") (codes "s1") (codes "r1")))))
unfolding required required_text
ask_frame-whole_example =
    ask_frame-whole question 512 (codes "what's \"up\"?") (codes "s1") (codes "r1") refl refl refl
      (omega (arith, payload_size)) (omega arith)
