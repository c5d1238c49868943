-- ===== src/Lib.antt =====
-- Verification library of the Thalovant embedded C client, a client for hubs of the Thalovant bus
-- that runs without a heap: every function works on the caller's buffers and returns a length or
-- an error.
--
-- The parts of the program and the files that model them:
-- * Codec (src/codec.c): hexadecimal and Base64. The envelopes and the Noise payloads use it.
-- * Topics (src/topics.c): from the identity of a device to its MQTT topics, broker endpoint and
--   client id, and the split of a URL.
-- * Writer (src/wire.c, lines 47 to 108): the bounded writer of JSON text, which every frame goes
--   through.
-- * Identity (src/identity.c, include/thalovant/identity.h): the records, and in Identity/Parse
--   thalovant_identity_parse (`identity_parse`).
-- * Wire (src/wire.c): the table of message types, thalovant_wire_serialize (`serialize`),
--   thalovant_wire_hello (`hello`), and the binary frame: thalovant_wire_encode_binary
--   (`encode_binary`) in Wire, and in Wire/Binary the bit reader and thalovant_wire_decode_binary.
--   Wire/Parse reads a JSON frame, Wire/Envelope has the encrypted envelopes, the Authorization
--   value and the URL.
-- * AesGcm (src/aes_gcm.c): the key schedules and block ciphers of AES-128 and AES-256, and in
--   AesGcm/Gcm GHASH, counter mode, thalovant_aes_gcm_encrypt and its three companions, the
--   comparison of tags, and the runtime key. The source repeats the counter and tag loops for the
--   two ciphers; here they take the cipher as an argument.
-- * Sha256 (src/sha256.c): the hash as a context that is fed piece by piece.
-- * Json (src/json.c): the tokenizer. Json has strings and primitives, Json/Values the containers
--   and thalovant_json_parse, Json/Escape thalovant_json_unescape, Json/Lookup the search among
--   the tokens, Json/Coerce the values as texts, numbers and truth values, Json/Scan the shallow
--   scans.
-- * Noise (src/noise.c): the session of include/thalovant/noise.h. Noise has the state, the key
--   derivation and sealing, Noise/Handshake the messages of thalovant_noise_init,
--   thalovant_noise_write and thalovant_noise_read (`noise_init`, `noise_write`, `noise_read`),
--   Noise/Transport the frames and thalovant_noise_select. A call returns the next state with its
--   result; `settle` is the `fail` of the source. X25519 is the record `Curve` of its two
--   functions, with the laws of key agreement as hypotheses where they are used.
-- * Intents (src/intents.c, lines 10 to 262): the queries about a hub's intents, fallbacks and
--   skills, as payloads and as frames. `append_quoted` is the append_json_string of that file,
--   whose `append` and switch over a character are those of src/wire.c, word for word, so that the
--   model takes them from Writer.
-- * Ask (src/ask.c, up to thalovant_ask_build_frame_with_hints): the question, with its hints, as
--   payload and as frame. Its `append` and append_json_range are those of the other files too, and
--   are taken from Writer and Intents.
-- * Base (no code of its own): the names and lemmas that these share; Base/Outcome is
--   include/thalovant/error.h with the chain of early returns as a monad, Base/Bits the operations
--   on bits.
-- A file has the theorems of its name; every Examples file has tests, among them published vectors
-- of AES, GCM and SHA-256.
--
-- How the code is read: a byte is a number below 256, a text the list of the bytes before its
-- terminator, and every number is a natural number of the kernel, with the wrap-around of an
-- unsigned type written out where the code relies on it. A pointer that may be NULL is an option.
-- An output buffer is its capacity, and the result is what the function leaves in it; what a
-- function leaves in a buffer when it fails is not modelled. A negative return value is an error.
-- Where the code returns the size_t of its position as an int (src/wire.c, src/ask.c,
-- src/intents.c), `int_return` of Writer narrows it to 32 bits: the result is the part of the text
-- that the int says, or the error that the negative int is. A loop over its input is structural; a
-- loop that is not has fuel and gives `stuck` when it runs out or, where the code has no error
-- result, what it has so far. The bit reader gets one round more than there are bits, a scan of a
-- string one more than there are characters, and the padding of SHA-256 has 64 rounds; the
-- theorems say the exact result, so that the fuel is enough there. The loop over the members of a
-- JSON container gets one round more than there are characters, since every round takes one at
-- least. The nesting of JSON values is the budget of THALOVANT_JSON_MAX_DEPTH. The sizes of
-- include/thalovant/config.h are at their defaults.
--
-- What is assumed of the C library: isspace, isdigit and tolower are those of the C locale. strtod
-- is a parameter, the largest `long` is another; strtol is written out on a text that is a number
-- as a whole.
--
-- Not modelled: the pointer checks of the functions of src/aes_gcm.c, src/wire.c from line 144 on
-- and src/json.c from line 288 on; in src/noise.c the test for a NULL state and the wiping of
-- local buffers; src/ask.c from request_id_from on, src/intents.c from line 264 on,
-- src/request_helpers.c, src/noise_psk.c and src/noise_curve.c; the tests, fixtures and tools.
pub mod Base
pub mod Codec
pub mod Identity
pub mod Topics
pub mod Writer
pub mod AesGcm
pub mod Json
pub mod Sha256
pub mod Noise
pub mod Wire
pub mod Intents
pub mod Ask
