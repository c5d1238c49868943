-- ===== src/Wire/Examples.antt =====
-- Runs of src/wire.c at concrete inputs.
use thalovant_embedded_c.Base.{
  ◌&&◌, none, some, ◌∷◌, ◌++◌, ◌≡◌, refl, Bytes, codes, length, ltb, if◌then◌else◌, ok, err, nomem,
  arith,
}
use thalovant_embedded_c.Base.{replicate}
use thalovant_embedded_c.Writer.{append}
use thalovant_embedded_c.Wire.Envelope.{
  envelope_encrypt_binary, envelope_decrypt_binary, wire_ws_url, has_query, append_url, url_piece,
  url_unreserved,
}
use thalovant_embedded_c.Wire.Sealed.{envelope_decrypt_binary-encrypt}
use thalovant_embedded_c.Wire.Frame.{
  frame_text, hello_text, hello_message, serialize-frame_text, hello-frame_text,
}
use thalovant_embedded_c.Wire.MsgType.{msg_type_id-name}
use thalovant_embedded_c.Wire.BinaryRoundTrip.{decode_binary-encode}
use thalovant_embedded_c.Writer.{int_return}
use thalovant_embedded_c.Writer.Laws.{whole}
use thalovant_embedded_c.Wire.{
  encode_binary, find_id, find_name, hello, hello_payload_max, or_default, or_third_party,
  serialize, msg_type_id, HiveMessage, encode_binary, find_id, msg_type_id, msg_type_name,
  find_name,
}
use thalovant_embedded_c.Wire.Binary.{
  decode_binary, decode_bits, read_body, read_version, read_bytes, skip_padding, read_uint,
  read_bits, read_bit,
}

abbrev bus_message : HiveMessage
bus_message = record {
  msg_type = some (codes "bus");
  payload_json = some (codes "{\"a\":1}");
  metadata_json = some (codes "{}");
  route_json = none;
  node = none;
  target_site_id = none;
  target_pubkey = none;
  source_peer = none;
}

decode_run :
    decode_binary (some (0x82 ∷ 2 ∷ (codes "{}" ++ codes "{\"a\":1}"))) (some 300) (some 300)
    ≡ ok (record {
      type_id = 1;
      msg_type = codes "bus";
      metadata = codes "{}";
      payload = codes "{\"a\":1}";
    })
unfolding decode_binary decode_bits read_body read_version read_bytes skip_padding read_uint
    read_bits read_bit msg_type_name
decode_run = refl

abbrev bus_frame : Bytes
bus_frame = 0x82 ∷ 2 ∷ (codes "{}" ++ codes "{\"a\":1}")

encode_run : encode_binary (some bus_message) (some 300) ≡ ok bus_frame
unfolding encode_binary msg_type_id find_id
encode_run = refl

serialize-frame_text_example :
    serialize (some bus_message) (some 300) ≡ whole 300 (frame_text (codes "bus") bus_message)
serialize-frame_text_example = serialize-frame_text bus_message (codes "bus") 300 refl (omega arith)

hello-frame_text_example :
    hello (some (codes "pk")) (some (codes "s1")) (some (codes "site")) (some 600) ≡ (
      let payload = hello_text (codes "pk") (codes "s1") (codes "site") in
      let text = frame_text (codes "hello") (hello_message payload) in
      if ltb (length payload) hello_payload_max && ltb (length text) 600
      then ok text
      else err nomem)
hello-frame_text_example =
    hello-frame_text (some (codes "pk")) (codes "s1") (codes "site") 600 (omega arith)

ping_id : msg_type_id (some (codes "ping")) ≡ some 9
unfolding msg_type_id find_id
ping_id = refl

ping_name : msg_type_name 9 ≡ some (codes "ping")
unfolding msg_type_name find_name
ping_name = refl

msg_type_id-name_example : msg_type_id (some (codes "ping")) ≡ some 9
msg_type_id-name_example = msg_type_id-name 9 (codes "ping") ping_name

decode_binary-encode_example :
    decode_binary (some bus_frame) (some 300) (some 300)
    ≡ ok (record {
      type_id = or_third_party (msg_type_id (some (codes "bus")));
      msg_type =
          or_default
            (msg_type_name (or_third_party (msg_type_id (some (codes "bus")))))
            (codes "3rdparty");
      metadata = codes "{}";
      payload = codes "{\"a\":1}";
    })
decode_binary-encode_example =
    decode_binary-encode bus_message (codes "bus") 300 300 300 bus_frame refl (ground arith)
      (ground arith) encode_run (omega arith) (omega arith)

envelope_decrypt_binary-encrypt_example :
    (sealed : Bytes) × (envelope_encrypt_binary (replicate 16 7) (replicate 16 1) (codes "hello") 37
      ≡ ok sealed)
    × (length sealed ≡ 37)
    × (envelope_decrypt_binary (replicate 16 7) sealed 5 ≡ ok (codes "hello"))
envelope_decrypt_binary-encrypt_example =
    envelope_decrypt_binary-encrypt (replicate 16 7) (replicate 16 1) (codes "hello") 37 5 refl refl
      (omega arith) (omega arith) (omega arith)

url_sample :
    wire_ws_url (codes "wss://h/p?x=1") (codes "a+b=") 64
    ≡ ok (codes "wss://h/p?x=1&authorization=a%2Bb%3D")
unfolding wire_ws_url has_query int_return append append_url url_piece url_unreserved
url_sample = refl
