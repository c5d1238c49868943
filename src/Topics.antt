-- ===== src/Topics.antt =====
-- src/topics.c: MQTT topics, broker endpoint, client id, and the split of an endpoint URL.
pub mod Derive
pub mod ClientId
pub mod Endpoint
pub mod UrlRoundTrip
mod Examples
use thalovant_embedded_c.Base.{
  ℕ, ◌+◌, ◌-◌, ◌*◌, ◌/◌, Bool, true, not, ◌&&◌, ◌||◌, Option, none, some, [], ◌∷◌, ◌++◌, map, Bytes,
  codes, length, take, drop, ltb, leb, within, ◌==◌, if◌then◌else◌, Result, ok, err, invalid, nomem,
  missing, ◌>>=◌, ◌>>◌, fail_if, beq, all, trim_start, trim_end, is_space, is_digit, to_lower,
}
use thalovant_embedded_c.Identity.{MqttCredentials, DeviceIdentity}

abbrev slash : ℕ → Bool
slash c = c == b'/'

-- include/thalovant/config.h
abbrev pub topic_prefix_max : ℕ
topic_prefix_max = 160

abbrev pub topic_max : ℕ
topic_max = 256

abbrev pub endpoint_max : ℕ
endpoint_max = 128

abbrev pub path_max : ℕ
path_max = 64

abbrev pub scheme_max : ℕ
scheme_max = 16

-- snprintf into a buffer, with the caller's test of what would have been written.
abbrev pub print_into : ℕ → Bytes → Result Bytes
print_into cap text = fail_if (leb cap (length text)) nomem >> ok text

unfoldable pub trim_slashes : Bytes → ℕ → Result Bytes
trim_slashes text cap =
    let middle = trim_end slash (trim_start slash text) in
    fail_if (ltb cap (length middle + 1)) nomem >> ok middle

-- thalovant_mqtt_topics
pub record MqttTopics : Type 0 where
  pub inbound : Bytes
  pub outbound : Bytes
  pub status : Bytes

-- The test of one character of the prefix.
unfoldable pub is_wildcard_or_control : ℕ → Bool
is_wildcard_or_control c = c == b'#' || c == b'+' || ltb c 0x20

-- The loop over the three channels.
unfoldable pub print_channels : Bytes → Result MqttTopics
print_channels prefix = do
  inbound ← print_into topic_max (prefix ++ codes "/in")
  outbound ← print_into topic_max (prefix ++ codes "/out")
  status ← print_into topic_max (prefix ++ codes "/status")
  ok (record { inbound = inbound; outbound = outbound; status = status })

unfoldable pub topics_derive : Option DeviceIdentity → Bool → Result MqttTopics
topics_derive (some identity) true = do
  let mqtt = identity.mqtt
  fail_if (not mqtt.present) missing
  trimmed ← trim_slashes mqtt.topic_prefix topic_prefix_max
  let prefix = trim_end is_space (trim_start is_space trimmed)
  fail_if (length prefix == 0) missing
  fail_if (not (all (λ c. not (is_wildcard_or_control c)) prefix)) invalid
  print_channels prefix
topics_derive _ _ = err invalid

-- strncmp(text, prefix, strlen(prefix)) == 0
abbrev pub starts_with : Bytes → Bytes → Bool
starts_with prefix text = beq (take (length prefix) text) prefix

-- if (len > 0 && out[len - 1] == '/') out[--len] = '\0';
unfoldable pub drop_last_slash : Bytes → Bytes
drop_last_slash [] = []
drop_last_slash (c ∷ []) = if c == b'/' then [] else c ∷ []
drop_last_slash (c ∷ d ∷ cs) = c ∷ drop_last_slash (d ∷ cs)

unfoldable pub mqtt_endpoint : Option MqttCredentials → Option ℕ → Result Bytes
mqtt_endpoint (some mqtt) (some cap) = do
  fail_if (length mqtt.endpoint == 0) invalid
  let upgraded = codes "mqtts://" ++ drop 7 mqtt.endpoint
  let text =
      if mqtt.tls && starts_with (codes "mqtt://") mqtt.endpoint then upgraded else mqtt.endpoint
  written ← print_into cap text
  ok (drop_last_slash written)
mqtt_endpoint _ _ = err invalid

unfoldable pub is_safe : ℕ → Bool
is_safe c = within b'a' b'z' c || within b'A' b'Z' c || within b'0' b'9' c || c == b'_' || c == b'-'

abbrev pub client_prefix : Bytes
client_prefix = codes "thalovant-"

unfoldable pub mqtt_client_id : Option Bytes → Option ℕ → Result Bytes
mqtt_client_id (some access_key) (some cap) = do
  fail_if (length access_key == 0) missing
  let key = take 48 access_key
  fail_if (ltb cap (length client_prefix + length key + 1)) nomem
  ok (client_prefix ++ map (λ c. if is_safe c then c else b'-') key)
mqtt_client_id _ _ = err invalid

-- thalovant_endpoint
pub record UrlEndpoint : Type 0 where
  pub scheme : Bytes
  pub host : Bytes
  pub path : Bytes
  pub port : ℕ
  pub tls : Bool

-- strstr(url, "://"): the text before the first match and behind it.
unfoldable pub split_scheme : Bytes → Option (Bytes × Bytes)
split_scheme [] = none
split_scheme (c ∷ cs) =
    let later = split_scheme cs in
    if starts_with (codes "://") (c ∷ cs)
    then some ([], drop 3 (c ∷ cs))
    else elim later [ none ↦ none | some (a, b) ↦ some (c ∷ a, b) ]

-- The text up to the first character of a kind, and the text from there on.
unfoldable pub span_until : (ℕ → Bool) → Bytes → Bytes × Bytes
span_until p [] = ([], [])
span_until p (c ∷ cs) =
    let later = span_until p cs in if p c then ([], c ∷ cs) else (c ∷ later.0, later.1)

unfoldable pub ends_host : ℕ → Bool
ends_host c = c == b':' || c == b'/' || c == b'?'

-- The host, in brackets or up to the port or path, and what follows it.
unfoldable pub split_host : Bytes → Result (Bytes × Bytes)
split_host [] = ok ([], [])
split_host (c ∷ cs) =
    let bracketed : Bytes × Bytes = span_until (λ d. d == b']') cs in
    let plain : Bytes × Bytes = span_until ends_host (c ∷ cs) in
    if c == b'['
    then (elim bracketed.1 [ [] ↦ err invalid | d ∷ rest ↦ ok (bracketed.0, rest) ])
    else ok plain

-- while (isdigit(*cursor)) port = port * 10 + (*cursor - '0');
unfoldable pub read_port : ℕ → Bytes → Result (ℕ × Bytes)
read_port port [] = ok (port, [])
read_port port (c ∷ cs) =
    let port' = port * 10 + (c - b'0') in
    let more = read_port port' cs in
    if is_digit c then (if ltb 65535 port' then err invalid else more) else ok (port, c ∷ cs)

-- The optional port: 0 where none is given.
unfoldable pub split_port : Bytes → Result (ℕ × Bytes)
split_port [] = ok (0, [])
split_port (c ∷ []) = if c == b':' then err invalid else ok (0, c ∷ [])
split_port (c ∷ d ∷ cs) =
    if c == b':'
    then (if is_digit d then read_port 0 (d ∷ cs) else err invalid)
    else ok (0, c ∷ d ∷ cs)

unfoldable pub read_path : Bytes → Result Bytes
read_path [] = ok []
read_path (c ∷ cs) = do
  fail_if (not (c == b'/') && not (c == b'?')) invalid
  fail_if (ltb path_max (length (c ∷ cs) + 1)) nomem
  ok (c ∷ cs)

unfoldable pub is_tls : Bytes → Bool
is_tls scheme =
    beq scheme (codes "mqtts")
    || beq scheme (codes "wss")
    || beq scheme (codes "https")
    || beq scheme (codes "ssl")

unfoldable pub default_port : Bytes → ℕ
default_port scheme =
    if beq scheme (codes "mqtt")
    then 1883
    else if beq scheme (codes "mqtts")
    then 8883
    else if beq scheme (codes "ws") || beq scheme (codes "http")
    then 80
    else if beq scheme (codes "wss") || beq scheme (codes "https")
    then 443
    else 0

-- What follows the host, for a scheme and host already copied.
unfoldable pub parse_port_path : Bytes → Bytes → ℕ → Bytes → Result UrlEndpoint
parse_port_path scheme host port after_port = do
  path ← read_path after_port
  ok (record {
    scheme = scheme;
    host = host;
    path = path;
    port = if port == 0 then default_port scheme else port;
    tls = is_tls scheme;
  })

-- What follows the separator, for a scheme already copied.
unfoldable pub parse_authority : Bytes → Bytes → Result UrlEndpoint
parse_authority scheme cursor = do
  (host, after_host) ← split_host cursor
  fail_if (length host == 0) invalid
  fail_if (ltb endpoint_max (length host + 1)) nomem
  (port, after_port) ← split_port after_host
  parse_port_path scheme host port after_port

unfoldable pub endpoint_parse : Option Bytes → Bool → Result UrlEndpoint
endpoint_parse (some url) true = elim (split_scheme url) [
  | none ↦ err invalid
  | some (before, cursor) ↦ do
    fail_if (length before == 0) invalid
    fail_if (ltb scheme_max (length before + 1)) nomem
    parse_authority (map to_lower before) cursor
]
endpoint_parse _ _ = err invalid
