-- ===== src/Wire.antt =====
-- src/wire.c: message types, the JSON frame, and the binary frame of the bus protocol.
pub mod Frame
pub mod MsgType
pub mod Binary
pub mod Parse
pub mod Envelope
pub mod Sealed
pub mod BinaryRoundTrip
mod Examples
use thalovant_embedded_c.Base.{
  ℕ, ◌+◌, ◌*◌, ◌%◌, ◌^◌, Option, none, some, List, [], ◌∷◌, ◌++◌, bit_and, bit_or, Bytes, codes,
  length, ltb, ◌==◌, if◌then◌else◌, Result, ok, err, invalid, nomem, ◌>>=◌, ◌>>◌, fail_if, beq,
}
use thalovant_embedded_c.Writer.{int_return, append, append_json_string, append_string_or_null}

-- tlv_msg_type and MSG_TYPES
abbrev pub msg_types : List (Bytes × ℕ)
msg_types =
    (codes "shake", 0)
    ∷ (codes "handshake", 0)
    ∷ (codes "bus", 1)
    ∷ (codes "shared_bus", 2)
    ∷ (codes "broadcast", 3)
    ∷ (codes "propagate", 4)
    ∷ (codes "escalate", 5)
    ∷ (codes "hello", 6)
    ∷ (codes "query", 7)
    ∷ (codes "cascade", 8)
    ∷ (codes "ping", 9)
    ∷ (codes "rendezvous", 10)
    ∷ (codes "3rdparty", 11)
    ∷ (codes "bin", 12)
    ∷ []

unfoldable pub find_id : List (Bytes × ℕ) → Bytes → Option ℕ
find_id [] name = none
find_id ((n, i) ∷ rest) name = if beq n name then some i else find_id rest name

unfoldable pub find_name : List (Bytes × ℕ) → ℕ → Option Bytes
find_name [] id = none
find_name ((n, i) ∷ rest) id = if i == id then some n else find_name rest id

-- `none` is the -1 of the source.
unfoldable pub msg_type_id : Option Bytes → Option ℕ
unfolding find_id
msg_type_id none = none
msg_type_id (some name) = find_id msg_types name

-- `none` is the NULL of the source.
unfoldable pub msg_type_name : ℕ → Option Bytes
unfolding find_name
msg_type_name id = find_name msg_types id

-- thalovant_hive_message; `none` is NULL.
pub record HiveMessage : Type 0 where
  pub msg_type : Option Bytes
  pub payload_json : Option Bytes
  pub metadata_json : Option Bytes
  pub route_json : Option Bytes
  pub node : Option Bytes
  pub target_site_id : Option Bytes
  pub target_pubkey : Option Bytes
  pub source_peer : Option Bytes

abbrev pub or_default : Option Bytes → Bytes → Bytes
or_default none d = d
or_default (some s) d = s

-- The writes behind the checks of the arguments.
unfoldable pub serialize_into : ℕ → Bytes → HiveMessage → Result Bytes
serialize_into cap name msg = do
  o1 ← append cap [] (codes "{\"msg_type\":")
  o2 ← append_json_string cap o1 name
  o3 ← append cap o2 (codes ",\"payload\":")
  o4 ← append cap o3 (or_default msg.payload_json (codes "{}"))
  o5 ← append cap o4 (codes ",\"metadata\":")
  o6 ← append cap o5 (or_default msg.metadata_json (codes "{}"))
  o7 ← append cap o6 (codes ",\"route\":")
  o8 ← append cap o7 (or_default msg.route_json (codes "[]"))
  o9 ← append cap o8 (codes ",\"node\":")
  o10 ← append_string_or_null cap o9 msg.node
  o11 ← append cap o10 (codes ",\"target_site_id\":")
  o12 ← append_string_or_null cap o11 msg.target_site_id
  o13 ← append cap o12 (codes ",\"target_pubkey\":")
  o14 ← append_string_or_null cap o13 msg.target_pubkey
  o15 ← append cap o14 (codes ",\"source_peer\":")
  o16 ← append_string_or_null cap o15 msg.source_peer
  append cap o16 (codes "}")

abbrev pub serialize_named : ℕ → HiveMessage → Option Bytes → Result Bytes
serialize_named cap msg none = err invalid
serialize_named cap msg (some name) =
    fail_if (cap == 0) invalid >> (serialize_into cap name msg >>= int_return)

unfoldable pub serialize : Option HiveMessage → Option ℕ → Result Bytes
serialize (some msg) (some cap) = serialize_named cap msg msg.msg_type
serialize _ _ = err invalid

abbrev pub hello_payload_max : ℕ
hello_payload_max = 512

-- The payload that the handshake frame is built around.
unfoldable pub hello_payload : Option Bytes → Bytes → Bytes → Result Bytes
hello_payload pubkey session_id site_id = do
  o1 ← append hello_payload_max [] (codes "{\"pubkey\":")
  o2 ← append_json_string hello_payload_max o1 (or_default pubkey [])
  o3 ← append hello_payload_max o2 (codes ",\"session\":{\"session_id\":")
  o4 ← append_json_string hello_payload_max o3 session_id
  o5 ← append hello_payload_max o4 (codes "},\"site_id\":")
  o6 ← append_json_string hello_payload_max o5 site_id
  append hello_payload_max o6 (codes "}")

unfoldable pub hello : Option Bytes → Option Bytes → Option Bytes → Option ℕ → Result Bytes
hello pubkey (some session_id) (some site_id) (some cap) = do
  payload ← hello_payload pubkey session_id site_id
  serialize
      (some (record {
        msg_type = some (codes "hello");
        payload_json = some payload;
        metadata_json = none;
        route_json = none;
        node = none;
        target_site_id = none;
        target_pubkey = none;
        source_peer = none;
      }))
      (some cap)
hello _ _ _ _ = err invalid

-- thalovant_wire_encode_binary; the result is the bytes of the frame.
abbrev pub frame_bytes : ℕ → Bytes → Bytes → Bytes
frame_bytes type_id metadata payload =
    (bit_or 0x80 (bit_and type_id 0x1f * 2 ^ 1) % 256)
    ∷ (length metadata % 256)
    ∷ (metadata ++ payload)

abbrev pub or_third_party : Option ℕ → ℕ
or_third_party none = 11
or_third_party (some id) = id

abbrev pub encode_named : ℕ → HiveMessage → Option Bytes → Result Bytes
encode_named cap msg none = err invalid
encode_named cap msg (some name) = do
  let type_id = or_third_party (msg_type_id (some name))
  let metadata = or_default msg.metadata_json (codes "{}")
  let payload = or_default msg.payload_json (codes "{}")
  fail_if (ltb 255 (length metadata)) invalid
  fail_if (ltb cap (2 + length metadata + length payload)) nomem
  ok (frame_bytes type_id metadata payload)

unfoldable pub encode_binary : Option HiveMessage → Option ℕ → Result Bytes
encode_binary (some msg) (some cap) = encode_named cap msg msg.msg_type
encode_binary _ _ = err invalid
