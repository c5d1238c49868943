-- ===== src/Writer.antt =====
-- src/wire.c, lines 49 to 108: appending to a caller's buffer. The model's `out` is what stands in
-- the buffer before the terminator, so that its length is the `pos` of the source.
pub mod Laws
mod Examples
use thalovant_embedded_c.Base.{
  ℕ, ◌+◌, ◌/◌, ◌%◌, Option, none, some, [], ◌∷◌, ◌++◌, Bytes, codes, length, get_or, ltb, leb, ◌==◌,
  if◌then◌else◌, Result, ok, nomem, ◌>>=◌, ◌>>◌, fail_if, ◌^◌, ◌-◌, take, int_max, Err, err,
  invalid, json, missing, auth, unsupported, policy_denied, hub_refused, unlisted,
}
use thalovant_embedded_c.Codec.{hex_digits}

unfoldable pub append : ℕ → Bytes → Bytes → Result Bytes
append cap out text = fail_if (ltb cap (length out + length text + 1)) nomem >> ok (out ++ text)

-- The switch over one character of a JSON string.
unfoldable pub json_piece : ℕ → Bytes
json_piece ch =
    if ch == b'"'
    then codes "\\\""
    else if ch == b'\\'
    then codes "\\\\"
    else if ch == 8
    then codes "\\b"
    else if ch == 12
    then codes "\\f"
    else if ch == b'\n'
    then codes "\\n"
    else if ch == b'\r'
    then codes "\\r"
    else if ch == b'\t'
    then codes "\\t"
    else if ltb ch 0x20
    then codes "\\u00" ++ get_or hex_digits (ch / 16) 0 ∷ get_or hex_digits (ch % 16) 0 ∷ []
    else ch ∷ []

unfoldable pub append_pieces : ℕ → Bytes → Bytes → Result Bytes
append_pieces cap out [] = ok out
append_pieces cap out (c ∷ text) = do
  out' ← append cap out (json_piece c)
  append_pieces cap out' text

unfoldable pub append_json_string : ℕ → Bytes → Bytes → Result Bytes
append_json_string cap out text = do
  fail_if (leb cap (length out + 1)) nomem
  out' ← append_pieces cap (out ++ b'"' ∷ []) text
  fail_if (ltb cap (length out' + 2)) nomem
  ok (out' ++ b'"' ∷ [])

unfoldable pub append_string_or_null : ℕ → Bytes → Option Bytes → Result Bytes
append_string_or_null cap out none = append cap out (codes "null")
append_string_or_null cap out (some text) = append_json_string cap out text

-- The code that the int -n is.
unfoldable pub err_of : ℕ → Err
err_of n =
    if n == 1
    then invalid
    else if n == 2
    then nomem
    else if n == 3
    then json
    else if n == 4
    then missing
    else if n == 5
    then auth
    else if n == 6
    then unsupported
    else if n == 7
    then policy_denied
    else if n == 8
    then hub_refused
    else unlisted n

-- return (int)pos, with an int of 32 bits that wraps around: of what stands in the buffer, a caller
-- has the part that the int says, and an error where the int is negative.
unfoldable pub int_return : Bytes → Result Bytes
int_return out =
    let pos = length out % 2 ^ 32 in
    if leb pos int_max then ok (take pos out) else err (err_of (2 ^ 32 - pos))
