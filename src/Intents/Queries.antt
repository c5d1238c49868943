-- ===== src/Intents/Queries.antt =====
-- src/intents.c, lines 72 to 262: a query is written whole or not at all.
use thalovant_embedded_c.Base.{
  ◌+◌, ◌≤◌, length-append, arith, ℕ, ◌<◌, Bool, true, false, ◌&&◌, Option, none, some, [], ◌++◌,
  append_assoc, ◌≡◌, refl, ◌∙◌, inl, inr, Bytes, codes, length, ltb, if◌then◌else◌, Result, ok, err,
  nomem, ◌>>=◌, Bool-cases,
}
use thalovant_embedded_c.Writer.{append}
use thalovant_embedded_c.Writer.{json_piece}
use thalovant_embedded_c.Writer.Laws.{
  append-whole, whole, whole-small, literal_or_null, append-append, append_pieces-eq, append-fits,
  append-cases, literal, pieces,
}
use thalovant_embedded_c.Wire.{or_default}
use thalovant_embedded_c.Wire.Frame.{frame_text, serialize-small, frame_tail}
use thalovant_embedded_c.Intents.{
  write_list_payload, write_fallback_payload, write_skills_payload, write_describe_payload,
  IntentListRequest, IntentDescribeRequest, append_quoted, append_optional, append_context,
  required, required_text, definitions_member, build_list_payload, default_lang, lang_of,
  intent_list_build_payload, intent_list_all_build_payload, intent_describe_build_payload,
  fallback_list_build_payload, skills_list_build_payload, intent_payload_cap, query_message,
  build_frame, intent_describe_build_frame,
}

unfoldable pub member_text : Bytes → Option Bytes → Bytes
member_text key none = []
member_text key (some text) = key ++ literal text

unfoldable pub context_text : Option Bytes → Bytes → Option Bytes → Bytes → Bytes
context_text lang session_id site_id request_id =
    codes ",\"context\":{\"request_id\":"
    ++ (literal request_id
        ++ (codes ",\"thalovant_request_id\":"
            ++ (literal request_id
                ++ (member_text (codes ",\"lang\":") lang
                    ++ (codes ",\"session\":{\"session_id\":"
                        ++ (literal session_id
                            ++ (member_text (codes ",\"site_id\":") site_id
                                ++ (member_text (codes ",\"lang\":") lang
                                    ++ (codes ",\"request_id\":"
                                        ++ (literal request_id ++ codes "}}}"))))))))))

pub append_quoted-eq :
    (room : ℕ) (out text : Bytes) → append_quoted room out text ≡ append room out (literal text)
unfolding append_quoted literal
append_quoted-eq room out text = elim (append-cases room out (codes "\"")) [
  | inl e ↦
      let fits = append-fits room out (codes "\"") (out ++ codes "\"") e in
      rw e (
        rw (append_pieces-eq room text (out ++ codes "\"") fits.1)
          (append-append room (out ++ codes "\"") (pieces text) (codes "\"")))
      ∙ rw e at (append-append room out (codes "\"") (pieces text ++ codes "\""))
  | inr e ↦ rw e (rw e at (append-append room out (codes "\"") (pieces text ++ codes "\"")))
]

-- An optional member, and what follows it.
pub append_optional-append :
    (room : ℕ) (out key : Bytes) (text : Option Bytes) (rest : Bytes)
    → (append_optional room out key text >>= λ o. append room o rest)
      ≡ append room out (member_text key text ++ rest)
unfolding append_optional member_text
append_optional-append room out key none rest = refl
append_optional-append room out key (some text) rest =
    simp (append_quoted-eq, append-append, append_assoc)

-- The context behind a text is one write.
append_context-eq :
    (room : ℕ) (out : Bytes) (lang : Option Bytes) (session_id : Bytes) (site_id : Option Bytes)
    (request_id : Bytes)
    → append_context room out lang session_id site_id request_id
      ≡ append room out (context_text lang session_id site_id request_id)
unfolding append_context context_text
append_context-eq room out lang session_id site_id request_id =
    simp (append_quoted-eq, append_optional-append, append-append)

-- The texts of the queries.
unfoldable pub definitions_text : Bool → Option Bytes → Bytes
definitions_text included lang = if included then definitions_member lang else []

unfoldable pub list_text : IntentListRequest → Option Bytes → Bytes → Bytes → Bytes
list_text r lang session_id request_id =
    codes "{\"type\":\"ovos.intent.list\",\"data\":{"
    ++ (member_text (codes "\"lang\":") lang
        ++ (definitions_text r.include_definitions lang
            ++ (codes "}" ++ context_text lang session_id r.site_id request_id)))

unfoldable pub describe_text : IntentDescribeRequest → Bytes → Bytes → Bytes → Bytes → Bytes
describe_text r skill_id intent_name session_id request_id =
    let lang = or_default r.lang default_lang in
    codes "{\"type\":\"ovos.intent.describe\",\"data\":{\"skill_id\":"
    ++ (literal skill_id
        ++ (codes ",\"intent_name\":"
            ++ (literal intent_name
                ++ (codes ",\"lang\":"
                    ++ (literal lang
                        ++ (codes "}"
                            ++ context_text (some lang) session_id r.site_id request_id))))))

-- A query with no data, named by its event.
unfoldable pub event_text : Bytes → Option Bytes → Bytes → Option Bytes → Bytes → Bytes
event_text event lang session_id site_id request_id =
    (codes "{\"type\":\"" ++ (event ++ codes "\",\"data\":{}"))
    ++ context_text lang session_id site_id request_id

definitions-append :
    (room : ℕ) (out : Bytes) (included : Bool) (lang : Option Bytes) (rest : Bytes)
    → ((if included then append room out (definitions_member lang) else ok out) >>= λ o.
        append room o rest)
      ≡ append room out (definitions_text included lang ++ rest)
unfolding definitions_text
definitions-append room out true lang rest = append-append room out (definitions_member lang) rest
definitions-append room out false lang rest = refl

-- The session and the request id that a query needs.
abbrev pub HasIds : Option Bytes → Option Bytes → Bytes → Bytes → Type 0
HasIds session_id request_id s r = (required session_id ≡ ok s) × (required_text request_id ≡ ok r)

write_list_payload-eq :
    (r : IntentListRequest) (lang : Option Bytes) (room : ℕ) (s i : Bytes)
    → HasIds r.session_id r.request_id s i
    → write_list_payload (some r) lang (some room) ≡ append room [] (list_text r lang s i)
unfolding write_list_payload list_text required
write_list_payload-eq r lang room s i (session, id) =
    rw (session, id)
      (simp (append_context-eq, append_optional-append, definitions-append, append-append))

build_list_payload-eq :
    (r : IntentListRequest) (lang : Option Bytes) (room : ℕ) (s i : Bytes)
    → HasIds r.session_id r.request_id s i
    → build_list_payload (some r) lang (some room) ≡ whole room (list_text r lang s i)
unfolding build_list_payload
build_list_payload-eq r lang room s i ids =
    rw (write_list_payload-eq r lang room s i ids) (append-whole room (list_text r lang s i))

write_fallback_payload-eq :
    (r : IntentListRequest) (room : ℕ) (s i : Bytes)
    → HasIds r.session_id r.request_id s i
    → write_fallback_payload (some r) (some room)
      ≡ append room [] (
          event_text
            (codes "ovos.skills.fallback.list")
            (some (or_default r.lang default_lang))
            s
            r.site_id
            i)
unfolding write_fallback_payload event_text required
write_fallback_payload-eq r room s i (session, id) =
    rw (session, id) (simp (append_context-eq, append-append))

write_skills_payload-eq :
    (r : IntentListRequest) (room : ℕ) (s i : Bytes)
    → HasIds r.session_id r.request_id s i
    → write_skills_payload (some r) (some room)
      ≡ append room [] (event_text (codes "ovos.skills.list") none s r.site_id i)
unfolding write_skills_payload event_text required
write_skills_payload-eq r room s i (session, id) =
    rw (session, id) (simp (append_context-eq, append-append))

-- A list query that has a session and a request id is written as the text of its event, with room
-- for the terminator, and its length is returned as an int; or the buffer is refused as too small.
-- The query in one language names it, by default `en-us`; the query of all languages names none.
-- Fallbacks and skills are asked for with no data.
pub list_payloads-whole :
    (r : IntentListRequest) (room : ℕ) (s i : Bytes)
    → HasIds r.session_id r.request_id s i
    → (intent_list_build_payload (some r) (some room)
        ≡ whole room (list_text r (some (or_default r.lang default_lang)) s i))
      × (intent_list_all_build_payload (some r) (some room) ≡ whole room (list_text r none s i))
      × (fallback_list_build_payload (some r) (some room)
          ≡ whole room (
              event_text
                (codes "ovos.skills.fallback.list")
                (some (or_default r.lang default_lang))
                s
                r.site_id
                i))
      × (skills_list_build_payload (some r) (some room)
          ≡ whole room (event_text (codes "ovos.skills.list") none s r.site_id i))
unfolding intent_list_build_payload intent_list_all_build_payload fallback_list_build_payload
    skills_list_build_payload lang_of
list_payloads-whole r room s i ids = (
  build_list_payload-eq r (some (or_default r.lang default_lang)) room s i ids,
  build_list_payload-eq r none room s i ids,
  rw (write_fallback_payload-eq r room s i ids) (append-whole room _),
  rw (write_skills_payload-eq r room s i ids) (append-whole room _),
)

write_describe_payload-eq :
    (r : IntentDescribeRequest) (room : ℕ) (k n s i : Bytes)
    → HasIds r.session_id r.request_id s i
    → required_text r.skill_id ≡ ok k
    → required_text r.intent_name ≡ ok n
    → write_describe_payload (some r) (some room) ≡ append room [] (describe_text r k n s i)
unfolding write_describe_payload describe_text required
write_describe_payload-eq r room k n s i (session, id) skill name =
    rw (skill, name, session, id) (simp (append_context-eq, append_quoted-eq, append-append))

-- The payload in the buffer of a frame's builder.
describe_payload-eq :
    (r : IntentDescribeRequest) (k n s i : Bytes)
    → HasIds r.session_id r.request_id s i
    → required_text r.skill_id ≡ ok k
    → required_text r.intent_name ≡ ok n
    → intent_describe_build_payload (some r) (some intent_payload_cap) ≡ (
        if ltb (length (describe_text r k n s i)) intent_payload_cap
        then ok (describe_text r k n s i)
        else err nomem)
unfolding intent_describe_build_payload
describe_payload-eq r k n s i ids skill name =
    rw (write_describe_payload-eq r intent_payload_cap k n s i ids skill name) (
      append-whole intent_payload_cap (describe_text r k n s i)
      ∙ whole-small intent_payload_cap (describe_text r k n s i) (omega arith))

abbrev pub bus_head : Bytes
bus_head = codes "{\"msg_type\":\"bus\",\"payload\":"

pub bus_frame-eq :
    (payload : Bytes)
    → frame_text (codes "bus") (query_message payload) ≡ bus_head ++ (payload ++ frame_tail)
unfolding frame_text literal pieces json_piece literal_or_null
bus_frame-eq payload = refl

length-bus_frame :
    (payload : Bytes)
    → length (frame_text (codes "bus") (query_message payload)) ≤ length payload + 200
length-bus_frame payload =
    let h : length bus_head ≡ 28 = refl in
    let t : length frame_tail ≡ 100 = refl in
    rw (bus_frame-eq payload) (
      omega
        (arith, length-append bus_head (payload ++ frame_tail), length-append payload frame_tail))

-- The frame around a payload of the payload's buffer.
unfoldable pub framed : Bytes → ℕ → Result Bytes
framed payload room =
    let text = frame_text (codes "bus") (query_message payload) in
    if ltb (length payload) intent_payload_cap && ltb (length text) room then ok text else err nomem

-- A describe query with a skill, an intent, a session and a request id is sent as the `bus` frame
-- around the text of the query, where that text has at most 1023 bytes and the frame fits the
-- buffer; else the buffer is refused as too small. No part is ever cut.
pub describe_frame-whole :
    (r : IntentDescribeRequest) (room : ℕ) (k n s i : Bytes)
    → HasIds r.session_id r.request_id s i
    → required_text r.skill_id ≡ ok k
    → required_text r.intent_name ≡ ok n
    → 0 < room
    → intent_describe_build_frame (some r) (some room) ≡ framed (describe_text r k n s i) room
unfolding intent_describe_build_frame build_frame framed
describe_frame-whole r room k n s i ids skill name nonempty =
    let payload = describe_text r k n s i in
    rw (describe_payload-eq r k n s i ids skill name)
      (elim (Bool-cases (ltb (length payload) intent_payload_cap)) [
        | inl fits ↦ rw fits (
            serialize-small (query_message payload) (codes "bus") room refl
              (ground (arith, length-bus_frame payload)) nonempty)
        | inr long ↦ rw long refl
      ])
