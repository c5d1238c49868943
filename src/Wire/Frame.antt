-- ===== src/Wire/Frame.antt =====
-- src/wire.c: the JSON frame is the text of its message, or nothing.
use thalovant_embedded_c.Base.{
  ◌+◌, ◌≤◌, int_max, length-append, ℕ, ◌<◌, false, ◌&&◌, Option, none, some, [], ◌++◌, ◌≡◌, refl,
  ◌∙◌, inl, inr, Bytes, codes, length, ltb, ◌==◌, if◌then◌else◌, ok, err, nomem, arith, Bool-cases,
}
use thalovant_embedded_c.Writer.{append}
use thalovant_embedded_c.Writer.Laws.{
  append-append, literal, literal_or_null, append_json_string-eq, append_string_or_null-eq,
}
use thalovant_embedded_c.Wire.{
  HiveMessage, or_default, serialize_into, serialize, serialize_named, hello_payload,
  hello_payload_max, hello,
}
use thalovant_embedded_c.Writer.Laws.{append-eq, append-whole, whole, int_return-eq, pieces}
use thalovant_embedded_c.Writer.{json_piece}

-- The JSON object of a message.
unfoldable pub frame_text : Bytes → HiveMessage → Bytes
frame_text name msg =
    codes "{\"msg_type\":"
    ++ (literal name
        ++ (codes ",\"payload\":"
            ++ (or_default msg.payload_json (codes "{}")
                ++ (codes ",\"metadata\":"
                    ++ (or_default msg.metadata_json (codes "{}")
                        ++ (codes ",\"route\":"
                            ++ (or_default msg.route_json (codes "[]")
                                ++ (codes ",\"node\":"
                                    ++ (literal_or_null msg.node
                                        ++ (codes ",\"target_site_id\":"
                                            ++ (literal_or_null msg.target_site_id
                                                ++ (codes ",\"target_pubkey\":"
                                                    ++ (literal_or_null msg.target_pubkey
                                                        ++ (codes ",\"source_peer\":"
                                                            ++ (literal_or_null msg.source_peer
                                                            ++ codes "}")))))))))))))))

serialize_into-eq :
    (room : ℕ) (name : Bytes) (msg : HiveMessage)
    → serialize_into room name msg ≡ append room [] (frame_text name msg)
unfolding serialize_into frame_text
serialize_into-eq room name msg =
    simp (append_json_string-eq, append_string_or_null-eq, append-append)

-- A message with a type is written as the JSON object of its parts, with room for the terminator,
-- and its length is returned as an int, by `int_return`: up to INT_MAX bytes that is the text as it
-- is, above it what the narrowed int says. Where there is no room the buffer is refused as too small.
pub serialize-frame_text :
    (msg : HiveMessage) (name : Bytes) (room : ℕ)
    → msg.msg_type ≡ some name
    → 0 < room
    → serialize (some msg) (some room) ≡ whole room (frame_text name msg)
unfolding serialize frame_text
serialize-frame_text msg name room typed nonempty =
    let empty : (room == 0) ≡ false = ground arith in
    rw (typed, serialize_named, empty, serialize_into-eq room name msg)
      (append-whole room (frame_text name msg))

unfoldable pub hello_text : Bytes → Bytes → Bytes → Bytes
hello_text pubkey session_id site_id =
    codes "{\"pubkey\":"
    ++ (literal pubkey
        ++ (codes ",\"session\":{\"session_id\":"
            ++ (literal session_id ++ (codes "},\"site_id\":" ++ (literal site_id ++ codes "}")))))

hello_payload-eq :
    (pubkey : Option Bytes) (session_id site_id : Bytes)
    → hello_payload pubkey session_id site_id
      ≡ append hello_payload_max [] (hello_text (or_default pubkey []) session_id site_id)
unfolding hello_payload hello_text
hello_payload-eq pubkey session_id site_id = simp (append_json_string-eq, append-append)

-- The message that a handshake sends.
abbrev pub hello_message : Bytes → HiveMessage
hello_message payload = record {
  msg_type = some (codes "hello");
  payload_json = some payload;
  metadata_json = none;
  route_json = none;
  node = none;
  target_site_id = none;
  target_pubkey = none;
  source_peer = none;
}

-- A frame whose length fits an int is written whole.
pub serialize-small :
    (msg : HiveMessage) (name : Bytes) (room : ℕ)
    → msg.msg_type ≡ some name
    → length (frame_text name msg) ≤ int_max
    → 0 < room
    → serialize (some msg) (some room)
      ≡ (if ltb (length (frame_text name msg)) room then ok (frame_text name msg) else err nomem)
unfolding whole
serialize-small msg name room typed small nonempty =
    serialize-frame_text msg name room typed nonempty
    ∙ rw (int_return-eq (frame_text name msg) small) refl

-- What stands behind the payload in a frame with no other part.
abbrev pub frame_tail : Bytes
frame_tail =
    codes
      ",\"metadata\":{},\"route\":[],\"node\":null,\"target_site_id\":null,\"target_pubkey\":null,\"source_peer\":null}"

abbrev hello_head : Bytes
hello_head = codes "{\"msg_type\":\"hello\",\"payload\":"

length-hello_frame :
    (payload : Bytes)
    → length (frame_text (codes "hello") (hello_message payload)) ≤ length payload + 200
unfolding frame_text literal pieces json_piece literal_or_null
length-hello_frame payload =
    let h : length hello_head ≡ 30 = refl in
    let t : length frame_tail ≡ 100 = refl in
    omega
      (arith, length-append hello_head (payload ++ frame_tail), length-append payload frame_tail)

-- The handshake frame is the frame of the `hello` message around the session's payload, if the
-- payload has at most 511 bytes and the frame fits; else the buffer is refused as too small.
pub hello-frame_text :
    (pubkey : Option Bytes) (session_id site_id : Bytes) (room : ℕ)
    → 0 < room
    → hello pubkey (some session_id) (some site_id) (some room) ≡ (
        let payload = hello_text (or_default pubkey []) session_id site_id in
        let text = frame_text (codes "hello") (hello_message payload) in
        if ltb (length payload) hello_payload_max && ltb (length text) room
        then ok text
        else err nomem)
unfolding hello
hello-frame_text pubkey session_id site_id room nonempty =
    let payload = hello_text (or_default pubkey []) session_id site_id in
    rw (hello_payload-eq pubkey session_id site_id, append-eq hello_payload_max [] payload)
      (elim (Bool-cases (ltb (length payload) hello_payload_max)) [
        | inl fits ↦ rw fits (
            serialize-small (hello_message payload) (codes "hello") room refl
              (ground (arith, length-hello_frame payload)) nonempty)
        | inr long ↦ rw long
      ])
