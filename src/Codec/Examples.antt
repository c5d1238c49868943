-- ===== src/Codec/Examples.antt =====
-- Runs of src/codec.c at concrete inputs.
use thalovant_embedded_c.Base.{
  trim_end, ◌==◌, ◌/◌, ◌*◌, ◌≤◌, none, some, [], ◌∷◌, ◌≡◌, refl, ◌≢◌, Bytes, IsByte, codes, length,
  All, int_max, ok, arith, trim_end,
}
use thalovant_embedded_c.Codec.Hex.{hex_decode-encode, hex_decode_sound}
use thalovant_embedded_c.Codec.RoundTrip.{base64_decode-encode}
use thalovant_embedded_c.Codec.Bounds.{base64_decode_bounds}
use thalovant_embedded_c.Codec.{
  b64_bytes, b64_value, base64_decode, hex_decode, hex_pairs, hex_nibble, base64_encode, b64_chars,
  hex_chars, hex_encode, hex_nibble, hex_pairs, hex_decode, b64_chars, base64_encode, b64_value,
  b64_bytes, base64_decode,
}

abbrev three : Bytes
three = 0 ∷ 0xab ∷ 0xff ∷ []

encode_hex : hex_encode (some three) (some 7) ≡ ok (codes "00abff")
unfolding hex_encode hex_chars
encode_hex = refl

three-IsByte : All IsByte three
three-IsByte = ground arith

encode_base64 : base64_encode (some three) (some 5) ≡ ok (codes "AKv/")
unfolding base64_encode b64_chars
encode_base64 = refl

decode_base64 : base64_decode (some (codes "AKv/")) (some 3) ≡ ok three
unfolding base64_decode b64_bytes b64_value trim_end
decode_base64 = refl

decode_hex : hex_decode (some (codes "00ABff")) (some 3) ≡ ok three
unfolding hex_decode hex_pairs hex_nibble
decode_hex = refl

hex_decode-encode_example : hex_decode (some (codes "00abff")) (some 3) ≡ ok three
hex_decode-encode_example =
    hex_decode-encode three 7 3 (codes "00abff") three-IsByte encode_hex (omega arith)

hex_decode_sound_example :
    (length (codes "00ABff") ≡ 2 * length three)
    × (length three ≤ 3)
    × All IsByte three
    × All (λ c. hex_nibble c ≢ none) (codes "00ABff")
hex_decode_sound_example = hex_decode_sound (codes "00ABff") 3 three decode_hex

base64_decode-encode_example : base64_decode (some (codes "AKv/")) (some 3) ≡ ok three
base64_decode-encode_example =
    base64_decode-encode three 5 3 (codes "AKv/") three-IsByte encode_base64 (omega arith)

base64_decode_bounds_example :
    (length three ≡ 3 * length (trim_end (λ c. c == b'=') (codes "AKv/")) / 4)
    × (length three ≤ 3)
    × (length three ≤ int_max)
    × (4 * length three ≤ 3 * length (codes "AKv/"))
    × All IsByte three
base64_decode_bounds_example = base64_decode_bounds (codes "AKv/") 3 three decode_base64
