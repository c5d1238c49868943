-- ===== src/Wire/BinaryRoundTrip.antt =====
-- src/wire.c: a binary frame that was encoded is decoded to its message.
use thalovant_embedded_c.Base.{
  ℕ, zero, suc, ◌+◌, ◌-◌, ◌*◌, ◌/◌, ◌%◌, ◌^◌, ◌≤◌, ◌<◌, false, Option, some, ◌∷◌, ◌++◌, ◌≡◌, ap,
  ◌∙◌, inl, inr, bit_and, bit_or, Bytes, IsByte, codes, length, length-append, take, drop,
  take-append, drop-append, take_all, All, All-append, All-get_or, drop-get_or, get_or, ltb, leb,
  ok, invalid, nomem, ◌>>◌, fail_if, arith, Option-cases,
}
use mathlib.Core.Path.{subst}
use thalovant_embedded_c.Base.Bits.{bit_and_mask, bit_or_fields}
use thalovant_embedded_c.Wire.{
  HiveMessage, or_default, or_third_party, msg_type_id, msg_type_name, frame_bytes, encode_named,
  encode_binary,
}
use thalovant_embedded_c.Wire.MsgType.{msg_type_id_bound}
use thalovant_embedded_c.Wire.Binary.{
  BitReader, read_bit, read_bits, read_uint, skip_padding, read_bytes, read_version, read_body,
  decode_bits, decode_binary,
}

abbrev reader : Bytes → ℕ → ℕ → BitReader
reader bytes n pos = record { bytes = bytes; bit_len = n; bit_pos = pos }

-- Bit `c` of a byte, from the highest.
abbrev bit_of : ℕ → ℕ → ℕ
bit_of x c = x / 2 ^ (7 - c) % 2

module _ (bytes : Bytes) (n i : ℕ) where
  read_bit-at :
      (pos c : ℕ)
      → pos ≡ 8 * i + c
      → c < 8
      → pos < n
      → read_bit (reader bytes n pos) ≡ some (bit_of (get_or bytes i 0) c, reader bytes n (pos + 1))
  unfolding read_bit
  read_bit-at pos c e hc hn =
      let byte : pos / 8 ≡ i = omega arith in
      let bit : pos % 8 ≡ c = omega arith in
      let more : leb n pos ≡ false = ground arith in
      rw (more, byte, bit) (rw (bit_and_mask 1 (get_or bytes i 0 / 2 ^ (7 - c))))

  -- The number that `k` bits from bit `c` on put behind a value.
  abbrev collect : ℕ → ℕ → ℕ → ℕ
  collect zero c value = value
  collect (suc k) c value = collect k (suc c) (value * 2 + bit_of (get_or bytes i 0) c)

  read_bits-collect :
      (k c pos value : ℕ)
      → pos ≡ 8 * i + c
      → c + k ≤ 8
      → pos + k ≤ n
      → read_bits k value (reader bytes n pos) ≡ some (collect k c value, reader bytes n (pos + k))
  unfolding read_bits
  read_bits-collect zero c pos value e hc hn = let stays : pos + 0 ≡ pos = omega arith in rw stays
  read_bits-collect (suc k) c pos value e hc hn =
      let bit = bit_of (get_or bytes i 0) c in
      let join = bit_or_fields 1 value bit (omega arith) in
      let moves : pos + 1 + k ≡ pos + suc k = omega arith in
      rw (read_bit-at pos c e (omega arith) (omega arith), read_bits)
        (rw join (
          rw (← moves) (
            read_bits-collect k (suc c) (pos + 1) (value * 2 + bit) (omega arith) (omega arith)
              (omega arith))))

  read_byte :
      (pos : ℕ)
      → pos ≡ 8 * i
      → pos + 8 ≤ n
      → get_or bytes i 0 < 256
      → read_uint 8 (reader bytes n pos) ≡ some (get_or bytes i 0, reader bytes n (pos + 8))
  unfolding read_uint
  read_byte pos e hn byte =
      let x = get_or bytes i 0 in
      let whole : collect 8 0 0 ≡ x = omega arith in
      read_bits-collect 8 0 pos 0 (omega arith) (omega arith) hn ∙ rw whole

-- Whole bytes from a byte's first bit on.
read_bytes-drop :
    (bytes : Bytes) (n count i pos : ℕ)
    → All IsByte bytes
    → n ≡ 8 * length bytes
    → pos ≡ 8 * i
    → i + count ≤ length bytes
    → read_bytes count (reader bytes n pos)
      ≡ some (take count (drop i bytes), reader bytes n (8 * (i + count)))
unfolding read_bytes
read_bytes-drop bytes n zero i pos h len e fits =
    let same : pos ≡ 8 * (i + 0) = omega arith in rw same
read_bytes-drop bytes n (suc count) i pos h len e fits =
    let byte = All-get_or IsByte bytes i 0 h (omega arith) in
    let split = drop-get_or i bytes 0 (omega arith) in
    let moves : 8 * (suc i + count) ≡ 8 * (i + suc count) = omega arith in
    rw (read_byte bytes n i pos e (omega arith) byte, read_bytes)
      (rw
        (
          read_bytes-drop bytes n count (suc i) (pos + 8) h len (omega arith) (omega arith),
          read_bytes,
        )
        (rw (split, moves)))

-- The first byte of a frame: a set bit, no version, the type in five bits, not compressed.
header_byte : (id : ℕ) → id < 32 → bit_or 0x80 (bit_and id 0x1f * 2 ^ 1) % 256 ≡ 128 + 2 * id
header_byte id h =
    let masked : bit_and id 0x1f ≡ id = omega (arith, bit_and_mask 5 id) in
    rw masked (omega (arith, bit_or_fields 7 1 (id * 2 ^ 1) (omega arith)))

module _ (id : ℕ) (m p : Bytes) (small : id < 32) (hm : All IsByte m) (hp : All IsByte p)
    (short : length m ≤ 255) where
  abbrev frame_of : Bytes
  frame_of = (128 + 2 * id) ∷ length m ∷ (m ++ p)

  abbrev size_of : ℕ
  size_of = length frame_of * 8

  frame_of-IsByte : All IsByte frame_of
  frame_of-IsByte = (omega arith, (omega arith, All-append IsByte m p hm hp))

  skip_frame :
      skip_padding (size_of + 1) (reader frame_of size_of 0) ≡ ok (reader frame_of size_of 1)
  unfolding skip_padding
  skip_frame =
      let fuel : size_of + 1 ≡ suc size_of = omega arith in
      let bit : (128 + 2 * id) / 128 % 2 ≡ 1 = omega arith in
      rw
        (
          fuel,
          read_bit-at frame_of size_of 0 0 0 (omega arith) (omega arith) (omega arith),
          skip_padding,
        )
        (rw (bit, skip_padding))

  read_frame_body :
      (metadata_cap payload_cap : ℕ)
      → length m < metadata_cap
      → length p < payload_cap
      → read_body id (length m) metadata_cap payload_cap (reader frame_of size_of 16)
        ≡ ok (record {
          type_id = id;
          msg_type = or_default (msg_type_name id) (codes "3rdparty");
          metadata = m;
          payload = p;
        })
  unfolding read_body
  read_frame_body metadata_cap payload_cap fm fp =
      let total = length-append m p in
      let r1 =
        read_bytes-drop frame_of size_of (length m) 2 16 frame_of-IsByte (omega arith) (omega arith)
          (omega arith) in
      let left : (size_of - 8 * (2 + length m)) / 8 ≡ length p = omega arith in
      let r2 =
        read_bytes-drop frame_of size_of (length p) (2 + length m) (8 * (2 + length m))
          frame_of-IsByte (omega arith) (omega arith) (omega arith) in
      let two : 2 + length m ≡ suc (suc (length m)) = omega arith in
      let first : take (length m) (drop 2 frame_of) ≡ m = take-append m p in
      let second : take (length p) (drop (2 + length m) frame_of) ≡ p =
        rw two (ap (take (length p)) (drop-append m p) ∙ take_all (length p) p (omega arith)) in
      let room1 : fail_if (ltb metadata_cap (length m + 1)) nomem ≡ ok tt = ground arith in
      let room2 : fail_if (ltb payload_cap (length p + 1)) nomem ≡ ok tt = ground arith in
      rw (room1, r1, first) (rw (left, room2) (rw r2 (rw second)))

  decode_frame :
      (metadata_cap payload_cap : ℕ)
      → length m < metadata_cap
      → length p < payload_cap
      → decode_binary (some frame_of) (some metadata_cap) (some payload_cap)
        ≡ ok (record {
          type_id = id;
          msg_type = or_default (msg_type_name id) (codes "3rdparty");
          metadata = m;
          payload = p;
        })
  unfolding decode_binary decode_bits read_version
  decode_frame metadata_cap payload_cap fm fp =
      let x = 128 + 2 * id in
      let bit1 : x / 64 % 2 ≡ 0 = omega arith in
      let bit7 : x / 1 % 2 ≡ 0 = omega arith in
      let five : collect frame_of size_of 0 5 2 0 ≡ id = omega arith in
      let r1 = read_bit-at frame_of size_of 0 1 1 (omega arith) (omega arith) (omega arith) in
      let r2 : read_uint 5 (reader frame_of size_of 2) ≡ some (id, reader frame_of size_of 7) =
        unfold read_uint in
        read_bits-collect frame_of size_of 0 5 2 2 0 (omega arith) (omega arith) (omega arith)
        ∙ rw five in
      let r3 = read_bit-at frame_of size_of 0 7 7 (omega arith) (omega arith) (omega arith) in
      let r4 = read_byte frame_of size_of 1 8 (omega arith) (omega arith) (omega arith) in
      rw (skip_frame, r1)
        (rw (bit1) (rw (r2, r3) (rw bit7 (rw r4 (read_frame_body metadata_cap payload_cap fm fp)))))

or_third_party_bound : (name : Option Bytes) → or_third_party (msg_type_id name) < 32
or_third_party_bound name = elim (Option-cases (msg_type_id name)) [
  | inl e ↦ rw e (omega arith)
  | inr (id, e) ↦ rw e (omega (arith, msg_type_id_bound name id e))
]

encode_binary-eq-ok :
    (msg : HiveMessage) (name : Bytes) (room : ℕ) (frame : Bytes)
    → msg.msg_type ≡ some name
    → encode_binary (some msg) (some room) ≡ ok frame
    → (frame_bytes
          (or_third_party (msg_type_id (some name)))
          (or_default msg.metadata_json (codes "{}"))
          (or_default msg.payload_json (codes "{}"))
        ≡ frame)
      × (length (or_default msg.metadata_json (codes "{}")) ≤ 255)
      × (2
            + length (or_default msg.metadata_json (codes "{}"))
            + length (or_default msg.payload_json (codes "{}"))
          ≤ room)
unfolding encode_binary
encode_binary-eq-ok msg name room frame typed h =
    guarded (or_third_party (msg_type_id (some name))) (or_default msg.metadata_json (codes "{}"))
      (or_default msg.payload_json (codes "{}"))
      (subst (λ t. encode_named room msg t ≡ ok frame) typed h)
  where
    guarded :
        (id : ℕ) (m p : Bytes)
        → (fail_if (ltb 255 (length m)) invalid
            >> (fail_if (ltb room (2 + length m + length p)) nomem >> ok (frame_bytes id m p)))
          ≡ ok frame
        → (frame_bytes id m p ≡ frame) × (length m ≤ 255) × (2 + length m + length p ≤ room)
    guarded id m p e = ground arith

-- A binary frame that was encoded, from metadata and payload that are bytes, is decoded to the id
-- of its message's type, with its canonical name, and to its metadata and payload, in buffers that
-- hold them; an unknown type is `3rdparty`.
pub decode_binary-encode :
    (msg : HiveMessage) (name : Bytes) (room metadata_cap payload_cap : ℕ) (frame : Bytes)
    → msg.msg_type ≡ some name
    → All IsByte (or_default msg.metadata_json (codes "{}"))
    → All IsByte (or_default msg.payload_json (codes "{}"))
    → encode_binary (some msg) (some room) ≡ ok frame
    → length (or_default msg.metadata_json (codes "{}")) < metadata_cap
    → length (or_default msg.payload_json (codes "{}")) < payload_cap
    → decode_binary (some frame) (some metadata_cap) (some payload_cap)
      ≡ ok (record {
        type_id = or_third_party (msg_type_id (some name));
        msg_type =
            or_default
              (msg_type_name (or_third_party (msg_type_id (some name))))
              (codes "3rdparty");
        metadata = or_default msg.metadata_json (codes "{}");
        payload = or_default msg.payload_json (codes "{}");
      })
decode_binary-encode msg name room metadata_cap payload_cap frame typed hm hp h fm fp =
    let id = or_third_party (msg_type_id (some name)) in
    let m = or_default msg.metadata_json (codes "{}") in
    let p = or_default msg.payload_json (codes "{}") in
    let (e, short, _) = encode_binary-eq-ok msg name room frame typed h in
    let small = or_third_party_bound (some name) in
    let len : length m % 256 ≡ length m = omega arith in
    rw (← e) (
      rw (header_byte id small, len)
        (decode_frame id m p small hm hp short metadata_cap payload_cap fm fp))
