-- ===== src/Wire/Binary.antt =====
-- src/wire.c, lines 546 to 644: the bit reader and the decoder of binary frames.
use thalovant_embedded_c.Base.{
  ℕ, zero, suc, ◌+◌, ◌-◌, ◌*◌, ◌/◌, ◌%◌, ◌^◌, true, false, Option, none, some, [], ◌∷◌, bit_and,
  bit_or, Bytes, codes, length, get_or, ltb, leb, ◌==◌, if◌then◌else◌, Result, ok, err, stuck,
  invalid, nomem, unsupported, ◌>>=◌, ◌>>◌, fail_if,
}
use thalovant_embedded_c.Wire.{or_default, msg_type_name}

-- tlv_bit_reader
pub record BitReader : Type 0 where
  pub bytes : Bytes
  pub bit_len : ℕ
  pub bit_pos : ℕ

-- The bit at the reader's position. `none` is the -1 of the source, which leaves the reader alone.
unfoldable pub read_bit : BitReader → Option (ℕ × BitReader)
read_bit r =
    let byte = get_or r.bytes (r.bit_pos / 8) 0 in
    let bit = bit_and (byte / 2 ^ (7 - r.bit_pos % 8)) 1 in
    if leb r.bit_len r.bit_pos then none else some (bit, record r { bit_pos = r.bit_pos + 1 })

-- The loop of `read_uint`: `value` is what was read before. A width is at most 8 here, so that the
-- value does not leave a `long`.
unfoldable pub read_bits : ℕ → ℕ → BitReader → Option (ℕ × BitReader)
read_bits zero value r = some (value, r)
read_bits (suc width) value r = elim (read_bit r) [
  | none ↦ none
  | some (bit, r') ↦ read_bits width (bit_or (value * 2 ^ 1) bit) r'
]

unfoldable pub read_uint : ℕ → BitReader → Option (ℕ × BitReader)
read_uint width r = read_bits width 0 r

abbrev pub or_invalid {ℓ} : {A : Type ℓ} → Option A → Result A
or_invalid none = err invalid
or_invalid (some a) = ok a

-- do { bit = read_bit(&reader); } while (bit == 0); each round reads a bit, so one round more than
-- there are bits is enough.
unfoldable pub skip_padding : ℕ → BitReader → Result BitReader
skip_padding zero r = stuck
skip_padding (suc fuel) r = elim (read_bit r) [
  | none ↦ err invalid
  | some (bit, r') ↦ elim (bit == 0) [ true ↦ skip_padding fuel r' | false ↦ ok r' ]
]

-- `count` bytes of eight bits each.
unfoldable pub read_bytes : ℕ → BitReader → Option (Bytes × BitReader)
read_bytes zero r = some ([], r)
read_bytes (suc count) r = elim (read_uint 8 r) [
  | none ↦ none
  | some (byte, r') ↦ elim (read_bytes count r') [
    | none ↦ none
    | some (rest, r'') ↦ some (byte ∷ rest, r'')
  ]
]

-- The version, where the frame has one.
unfoldable pub read_version : ℕ → BitReader → Result BitReader
read_version versioned r = elim (versioned == 1) [
  | false ↦ ok r
  | true ↦ do (version, r') ← or_invalid (read_uint 8 r); fail_if (ltb 1 version) unsupported; ok r'
]

-- thalovant_wire_binary_frame, with the metadata and payload that the source leaves in buffers.
pub record BinaryFrame : Type 0 where
  pub type_id : ℕ
  pub msg_type : Bytes
  pub metadata : Bytes
  pub payload : Bytes

-- What follows the length of the metadata.
unfoldable pub read_body : ℕ → ℕ → ℕ → ℕ → BitReader → Result BinaryFrame
read_body type_id metadata_len metadata_cap payload_cap r = do
  fail_if (ltb metadata_cap (metadata_len + 1)) nomem
  (metadata, r1) ← or_invalid (read_bytes metadata_len r)
  let remaining = (r1.bit_len - r1.bit_pos) / 8
  fail_if (ltb payload_cap (remaining + 1)) nomem
  (payload, r2) ← or_invalid (read_bytes remaining r1)
  ok (record {
    type_id = type_id;
    msg_type = or_default (msg_type_name type_id) (codes "3rdparty");
    metadata = metadata;
    payload = payload;
  })

unfoldable pub decode_bits : ℕ → ℕ → BitReader → Result BinaryFrame
decode_bits metadata_cap payload_cap r = do
  r1 ← skip_padding (r.bit_len + 1) r
  (versioned, r2) ← or_invalid (read_bit r1)
  r3 ← read_version versioned r2
  (type_id, r4) ← or_invalid (read_uint 5 r3)
  (compressed, r5) ← or_invalid (read_bit r4)
  (metadata_len, r6) ← or_invalid (read_uint 8 r5)
  fail_if (compressed == 1) unsupported
  read_body type_id metadata_len metadata_cap payload_cap r6

-- thalovant_wire_decode_binary; a buffer is its capacity.
unfoldable pub decode_binary : Option Bytes → Option ℕ → Option ℕ → Result BinaryFrame
decode_binary (some frame) (some metadata_cap) (some payload_cap) =
    decode_bits metadata_cap payload_cap
      (record { bytes = frame; bit_len = length frame * 8; bit_pos = 0 })
decode_binary _ _ _ = err invalid
