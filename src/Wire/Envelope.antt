-- ===== src/Wire/Envelope.antt =====
-- src/wire.c, lines 266 to 435 and 464 to 513: the encrypted envelopes, as JSON and as bytes, the
-- Authorization value and the WebSocket URL. A nonce has 16 bytes where the code asks for one.
use thalovant_embedded_c.Base.{
  ℕ, ◌+◌, ◌-◌, ◌*◌, ◌/◌, ◌%◌, Bool, true, false, not, ◌&&◌, ◌||◌, Option, none, some, List, [], ◌∷◌,
  ◌++◌, Bytes, codes, length, take, drop, get_or, ltb, leb, within, ◌==◌, if◌then◌else◌, Result, ok,
  err, invalid, nomem, json, missing, ◌>>=◌, ◌>>◌, fail_if, all,
}
use thalovant_embedded_c.Codec.{hex_encode, hex_decode, base64_encode, base64_decode}
use thalovant_embedded_c.Json.{JsonTok, object, string, is_hex_digit}
use thalovant_embedded_c.Json.Values.{json_parse}
use thalovant_embedded_c.Json.Lookup.{tok_at, same_kind, tok_text, json_object_get}
use thalovant_embedded_c.AesGcm.Gcm.{aes_gcm_encrypt, aes_gcm_decrypt}
use thalovant_embedded_c.Writer.{append, int_return}
use thalovant_embedded_c.Wire.Parse.{required_string}

-- thalovant_hex_encode at the place where the text ends.
unfoldable pub append_hex : ℕ → Bytes → Bytes → Result Bytes
append_hex room out bytes = do
  digits ← hex_encode (some bytes) (some (room - length out))
  ok (out ++ digits)

unfoldable pub envelope_encrypt_json : Bytes → Bytes → Bytes → ℕ → Result Bytes
envelope_encrypt_json key nonce plaintext room = do
  (ciphertext, tag) ← aes_gcm_encrypt key nonce [] plaintext
  fail_if (ltb room (2 * length plaintext + 32 + 32 + 45 + 1)) nomem
  o1 ← append room [] (codes "{\"ciphertext\":\"")
  o2 ← append_hex room o1 ciphertext
  o3 ← append room o2 (codes "\",\"tag\":\"")
  o4 ← append_hex room o3 tag
  o5 ← append room o4 (codes "\",\"nonce\":\"")
  o6 ← append_hex room o5 nonce
  o7 ← append room o6 (codes "\"}")
  int_return o7

unfoldable pub nonce_looks_hex : Bytes → Bool
nonce_looks_hex nonce =
    not (length nonce == 0 || not (length nonce % 2 == 0))
    && all is_hex_digit nonce
    && (length nonce / 2 == 16 || length nonce / 2 == 12)

-- A field of the envelope, decoded the way the nonce says.
unfoldable pub decode_field : Bool → Bytes → ℕ → Result Bytes
decode_field true text room = hex_decode (some text) (some room)
decode_field false text room = base64_decode (some text) (some room)

-- The text of the ciphertext as it stands in the envelope, with its escapes.
unfoldable pub raw_string : Bytes → List JsonTok → Bytes → Result Bytes
raw_string js toks key = needed (json_object_get js toks 0 key)
  where
    text_or_json : Option Bytes → Result Bytes
    text_or_json none = err json
    text_or_json (some text) = ok text

    needed : Option ℕ → Result Bytes
    needed none = err missing
    needed (some value) =
        fail_if (not (same_kind (tok_at toks value).kind string)) missing
        >> text_or_json (tok_text js (tok_at toks value))

unfoldable pub open_envelope : Bytes → Bytes → List JsonTok → ℕ → Result Bytes
open_envelope key js toks room = do
  fail_if (not (same_kind (tok_at toks 0).kind object)) json
  nonce_text ← required_string js toks (codes "nonce") 128
  tag_text ← required_string js toks (codes "tag") 128
  ct_text ← raw_string js toks (codes "ciphertext")
  let hex = nonce_looks_hex nonce_text
  nonce ← decode_field hex nonce_text 16
  tag ← decode_field hex tag_text 16
  ciphertext ← decode_field hex ct_text room
  fail_if (not (length tag == 16) || length nonce == 0) invalid
  aes_gcm_decrypt key nonce [] ciphertext tag

unfoldable pub envelope_decrypt_json : Bytes → Bytes → ℕ → Result Bytes
envelope_decrypt_json key envelope_json room = do
  toks ← json_parse (some envelope_json) 32
  open_envelope key envelope_json toks room

unfoldable pub envelope_encrypt_binary : Bytes → Bytes → Bytes → ℕ → Result Bytes
envelope_encrypt_binary key nonce plaintext room = do
  fail_if (ltb room (16 + length plaintext + 16)) nomem
  (ciphertext, tag) ← aes_gcm_encrypt key nonce [] plaintext
  ok (nonce ++ (ciphertext ++ tag))

unfoldable pub envelope_decrypt_binary : Bytes → Bytes → ℕ → Result Bytes
envelope_decrypt_binary key sealed room = do
  let ct_len = length sealed - 16 - 16
  fail_if (leb (length sealed) (16 + 16)) invalid
  fail_if (ltb room ct_len) nomem
  aes_gcm_decrypt key (take 16 sealed) [] (take ct_len (drop 16 sealed))
      (drop ct_len (drop 16 sealed))

unfoldable pub wire_authorization : Bytes → Bytes → ℕ → Result Bytes
wire_authorization user_agent access_key room = do
  let joined = user_agent ++ b':' ∷ access_key
  fail_if (leb 512 (length joined)) nomem
  base64_encode (some joined) (some room)

unfoldable pub url_unreserved : ℕ → Bool
url_unreserved c =
    within b'a' b'z' c
    || within b'A' b'Z' c
    || within b'0' b'9' c
    || c == b'-'
    || c == b'_'
    || c == b'.'
    || c == b'~'

-- A character of the authorization, or % and its two digits in upper case.
unfoldable pub url_piece : ℕ → Bytes
url_piece c =
    if url_unreserved c then c ∷ [] else b'%' ∷ upper_digit (c / 16) ∷ upper_digit (c % 16) ∷ []
  where
    upper_digit : ℕ → ℕ
    upper_digit d = get_or (codes "0123456789ABCDEF") d 0

unfoldable pub append_url : ℕ → Bytes → Bytes → Result Bytes
append_url room out [] = ok out
append_url room out (c ∷ text) = do out' ← append room out (url_piece c); append_url room out' text

unfoldable pub has_query : Bytes → Bool
has_query [] = false
has_query (c ∷ text) = c == b'?' || has_query text

unfoldable pub wire_ws_url : Bytes → Bytes → ℕ → Result Bytes
wire_ws_url endpoint authorization room = do
  o1 ← append room [] endpoint
  o2 ←
      append room o1
        (if has_query endpoint then codes "&authorization=" else codes "?authorization=")
  o3 ← append_url room o2 authorization
  int_return o3
