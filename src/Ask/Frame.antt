-- ===== src/Ask/Frame.antt =====
-- src/ask.c, lines 11 to 189: the frame of a question is the bus frame around its payload.
use thalovant_embedded_c.Base.{
  ◌≤◌, int_max, inl, inr, ℕ, ◌-◌, ◌<◌, false, none, some, [], ◌++◌, append_assoc, ◌≡◌, refl, sym,
  ◌∙◌, Bytes, codes, length, length-append, ◌==◌, ok, ◌>>=◌, arith, trim_start, trim_end,
}
use thalovant_embedded_c.Writer.{append}
use thalovant_embedded_c.Writer.Laws.{
  append-cases, append-whole, whole, int_return-eq, append-append, literal,
}
use thalovant_embedded_c.Wire.{or_default, serialize}
use thalovant_embedded_c.Wire.Frame.{frame_tail, frame_text, serialize-frame_text}
use thalovant_embedded_c.Intents.{required, required_text, default_lang, query_message}
use thalovant_embedded_c.Intents.Queries.{
  bus_head, bus_frame-eq, member_text, append_quoted-eq, append_optional-append,
}
use thalovant_embedded_c.Ask.{
  write_ask_payload, write_ask_frame, AskRequest, trimmed, append_pipeline_hint, append_stt_lang,
  append_location, hint_of, validate_hints, ask_build_payload_with_hints,
  ask_build_frame_with_hints, ask_build_frame,
}

-- The text of a question without hints.
unfoldable pub ask_text : AskRequest → Bytes → Bytes → Bytes → Bytes
ask_text r text session_id request_id =
    let lang = or_default r.lang default_lang in
    codes "{\"type\":\"recognizer_loop:utterance\",\"data\":{\"utterances\":["
    ++ (literal text
        ++ (codes "],\"lang\":"
            ++ (literal lang
                ++ (codes "},\"context\":{\"request_id\":"
                    ++ (literal request_id
                        ++ (codes ",\"thalovant_request_id\":"
                            ++ (literal request_id
                                ++ (codes ",\"session\":{\"session_id\":"
                                    ++ (literal session_id
                                        ++ (member_text (codes ",\"site_id\":") r.site_id
                                            ++ (codes ",\"lang\":"
                                                ++ (literal lang
                                                    ++ (codes ",\"request_id\":"
                                                        ++ (literal request_id
                                                            ++ codes "}}}"))))))))))))))

write_ask_payload-eq :
    (r : AskRequest) (room : ℕ) (text s i : Bytes)
    → required_text r.text ≡ ok text
    → required r.session_id ≡ ok s
    → required r.request_id ≡ ok i
    → write_ask_payload (some r) none (some room) ≡ append room [] (ask_text r text s i)
unfolding write_ask_payload required validate_hints append_pipeline_hint append_stt_lang
    append_location hint_of trimmed trim_start trim_end ask_text
write_ask_payload-eq r room text s i utterance session id =
    rw (utterance, session, id) (simp (append_quoted-eq, append_optional-append, append-append))

-- A payload whose length fits an int is returned whole.
ask_payload-eq :
    (r : AskRequest) (room : ℕ) (text s i : Bytes)
    → required_text r.text ≡ ok text
    → required r.session_id ≡ ok s
    → required r.request_id ≡ ok i
    → length (ask_text r text s i) ≤ int_max
    → ask_build_payload_with_hints (some r) none (some room) ≡ append room [] (ask_text r text s i)
unfolding ask_build_payload_with_hints
ask_payload-eq r room text s i utterance session id small =
    let payload = ask_text r text s i in
    rw (write_ask_payload-eq r room text s i utterance session id)
      (elim (append-cases room [] payload) [
        | inl e ↦ rw e (int_return-eq payload small)
        | inr e ↦ rw e refl
      ])

-- A payload that is written in what a text before it leaves of a buffer.
append-nested :
    (room : ℕ) (before text after : Bytes)
    → (append room [] before >>= λ o.
        append (room - length o) [] text >>= λ p. append room (o ++ p) after)
      ≡ append room [] (before ++ (text ++ after))
unfolding append
append-nested room before text after = ground (
  arith,
  length-append before (text ++ after),
  length-append before text,
  length-append text after,
  append_assoc before text after,
)

write_ask_frame-eq :
    (r : AskRequest) (room : ℕ) (text s i : Bytes)
    → required_text r.text ≡ ok text
    → required r.session_id ≡ ok s
    → required r.request_id ≡ ok i
    → length (ask_text r text s i) ≤ int_max
    → 0 < room
    → write_ask_frame (some r) none (some room)
      ≡ append room [] (bus_head ++ (ask_text r text s i ++ frame_tail))
unfolding write_ask_frame required
write_ask_frame-eq r room text s i utterance session id small nonempty =
    let some_room : (room == 0) ≡ false = ground arith in
    rw some_room (
      simp (
        (λ (room' : ℕ). ask_payload-eq r room' text s i utterance session id small),
        append-nested,
      ))

ask_frame-eq :
    (r : AskRequest) (room : ℕ) (text s i : Bytes)
    → required_text r.text ≡ ok text
    → required r.session_id ≡ ok s
    → required r.request_id ≡ ok i
    → length (ask_text r text s i) ≤ int_max
    → 0 < room
    → ask_build_frame (some r) (some room)
      ≡ whole room (frame_text (codes "bus") (query_message (ask_text r text s i)))
unfolding ask_build_frame ask_build_frame_with_hints
ask_frame-eq r room text s i utterance session id small nonempty =
    let payload = ask_text r text s i in
    rw
      (bus_frame-eq payload, write_ask_frame-eq r room text s i utterance session id small nonempty)
      (append-whole room (bus_head ++ (payload ++ frame_tail)))

-- A question without hints that has a text, a session and a request id, and a payload of at most
-- INT_MAX bytes, is written as the `bus` frame around the payload, with room for the terminator, and
-- the frame's length is returned as an int; or the buffer is refused as too small. This is what
-- `serialize` makes of the payload, though the payload is built in its place in the caller's buffer.
pub ask_frame-whole :
    (r : AskRequest) (room : ℕ) (text s i : Bytes)
    → required_text r.text ≡ ok text
    → required r.session_id ≡ ok s
    → required r.request_id ≡ ok i
    → length (ask_text r text s i) ≤ int_max
    → 0 < room
    → (ask_build_frame (some r) (some room)
        ≡ serialize (some (query_message (ask_text r text s i))) (some room))
      × (ask_build_frame (some r) (some room)
          ≡ whole room (frame_text (codes "bus") (query_message (ask_text r text s i))))
ask_frame-whole r room text s i utterance session id small nonempty =
    let payload = ask_text r text s i in
    let written = ask_frame-eq r room text s i utterance session id small nonempty in
    (
      written ∙ sym (serialize-frame_text (query_message payload) (codes "bus") room refl nonempty),
      written,
    )
