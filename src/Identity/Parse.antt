-- ===== src/Identity/Parse.antt =====
-- src/identity.c: the identity of a device from its JSON text. A field is the C string that its buffer
-- holds. `to_double` and `long_max` are those of Json/Coerce.
use thalovant_embedded_c.Base.{
  ℕ, ◌+◌, Bool, true, false, not, ◌&&◌, ◌||◌, Option, none, some, List, [], ◌∷◌, Bytes, codes,
  length, ltb, ◌==◌, if◌then◌else◌, Result, ok, err, stuck, invalid, nomem, json, missing, ◌>>=◌,
  ◌>>◌, fail_if, trim_start, trim_end,
}
use thalovant_embedded_c.Identity.{MqttCredentials, DeviceIdentity}
use thalovant_embedded_c.Topics.{starts_with}
use thalovant_embedded_c.Json.{JsonTok, object}
use thalovant_embedded_c.Json.Values.{json_parse}
use thalovant_embedded_c.Json.Lookup.{tok_at, same_kind, json_object_get, json_object_get_alias}
use thalovant_embedded_c.Json.Coerce.{c_string, json_as_string, json_as_int, json_as_bool}

-- The text of the field, and no text where it is absent or null.
unfoldable pub get_string : Bytes → List JsonTok → ℕ → List Bytes → ℕ → Result Bytes
get_string js toks obj aliases room = field_text (json_object_get_alias js toks obj aliases)
  where
    field_text : Option ℕ → Result Bytes
    field_text none = ok []
    field_text (some value) = do
      text ← json_as_string js (tok_at toks value) room
      ok (c_string text)

unfoldable pub strip_trailing_slashes : Bytes → Bytes
strip_trailing_slashes text = trim_end (λ c. c == b'/') text

unfoldable pub normalize_path : Bytes → ℕ → Result Bytes
normalize_path path room =
    let name = trim_end (λ c. c == b'/') (trim_start (λ c. c == b'/') path) in
    if length name == 0
    then ok []
    else (fail_if (ltb room (length name + 2)) nomem >> ok (b'/' ∷ name))

-- qos == 0 || qos == 1
unfoldable pub qos_of : Result (Bool × ℕ) → ℕ
qos_of (ok (negative, value)) = if value == 0 || value == 1 && not negative then value else 1
qos_of _ = 1

unfoldable pub qos_value : ℕ → Bytes → List JsonTok → Option ℕ → ℕ
qos_value long_max js toks none = 1
qos_value long_max js toks (some value) = qos_of (json_as_int long_max js (tok_at toks value))

unfoldable pub tls_value : (Bytes → Option Bool) → Bytes → List JsonTok → Bool → Option ℕ → Bool
tls_value to_double js toks fallback none = fallback
tls_value to_double js toks fallback (some value) =
    json_as_bool to_double js (tok_at toks value) fallback

unfoldable pub no_mqtt : MqttCredentials
no_mqtt = record {
  present = false;
  endpoint = [];
  username = [];
  password = [];
  tls = false;
  qos = 0;
  topic_prefix = [];
}

unfoldable pub parse_mqtt :
    (Bytes → Option Bool) → ℕ → Bytes → List JsonTok → ℕ → Result MqttCredentials
parse_mqtt to_double long_max js toks obj = do
  endpoint ←
      get_string js toks obj (codes "endpoint" ∷ codes "broker_url" ∷ codes "brokerUrl" ∷ []) 128
  username ←
      get_string js toks obj
        (codes "username" ∷ codes "broker_username" ∷ codes "brokerUsername" ∷ []) 96
  password ←
      get_string js toks obj
        (codes "password" ∷ codes "broker_password" ∷ codes "brokerPassword" ∷ []) 128
  let named : MqttCredentials = record no_mqtt {
    endpoint = endpoint;
    username = username;
    password = password;
  }
  let usable = not (length endpoint == 0 || length username == 0 || length password == 0)
  elim usable [
    | false ↦ ok named
    | true ↦
        get_string js toks obj (codes "topic_prefix" ∷ codes "topicPrefix" ∷ []) 160
        >>= λ topic_prefix.
            let tls_default = starts_with (codes "mqtts://") endpoint in
            ok (record named {
              topic_prefix = topic_prefix;
              qos =
                  qos_value long_max js toks (json_object_get_alias js toks obj (codes "qos" ∷ []));
              tls =
                  tls_value to_double js toks tls_default
                    (json_object_get_alias js toks obj (codes "tls" ∷ []));
              present = true;
            })
  ]

-- An empty text keeps the default.
unfoldable pub port_of : Result (Bool × ℕ) → Result ℕ
port_of stuck = stuck
port_of (err missing) = ok 5679
port_of (err code) = err invalid
port_of (ok (negative, port)) = fail_if (negative || port == 0 || ltb 65535 port) invalid >> ok port

unfoldable pub chosen_port : ℕ → Bytes → List JsonTok → Option ℕ → Result ℕ
chosen_port long_max js toks none = ok 5679
chosen_port long_max js toks (some value) = port_of (json_as_int long_max js (tok_at toks value))

unfoldable pub mqtt_value :
    (Bytes → Option Bool) → ℕ → Bytes → List JsonTok → Option ℕ → Result MqttCredentials
mqtt_value to_double long_max js toks none = ok no_mqtt
mqtt_value to_double long_max js toks (some value) =
    let credentials = parse_mqtt to_double long_max js toks value in
    if same_kind (tok_at toks value).kind object then credentials else ok no_mqtt

unfoldable pub identity_of :
    (Bytes → Option Bool) → ℕ → Bytes → List JsonTok → Result DeviceIdentity
identity_of to_double long_max js toks = do
  fail_if (not (same_kind (tok_at toks 0).kind object)) json
  access_key ←
      get_string js toks 0
        (codes "access_key" ∷ codes "accessKey" ∷ codes "api_key" ∷ codes "key" ∷ []) 128
  password ← get_string js toks 0 (codes "password" ∷ []) 128
  crypto_key ← get_string js toks 0 (codes "crypto_key" ∷ codes "cryptoKey" ∷ []) 64
  site_id ← get_string js toks 0 (codes "site_id" ∷ codes "siteId" ∷ codes "site" ∷ []) 64
  master ←
      get_string js toks 0
        (codes "default_master"
          ∷ codes "defaultMaster"
          ∷ codes "hub_http_host"
          ∷ codes "host"
          ∷ codes "master"
          ∷ [])
        128
  let default_master = strip_trailing_slashes master
  path ←
      get_string js toks 0
        (codes "default_path"
          ∷ codes "defaultPath"
          ∷ codes "hub_http_path"
          ∷ codes "path"
          ∷ codes "uri_path"
          ∷ [])
        64
  default_path ← normalize_path path 64
  public_key ← get_string js toks 0 (codes "public_key" ∷ codes "publicKey" ∷ []) 256
  default_port ← chosen_port long_max js toks (
      json_object_get_alias js toks 0
        (codes "default_port" ∷ codes "defaultPort" ∷ codes "hub_http_port" ∷ codes "port" ∷ []))
  fail_if
      (length access_key == 0
        || length password == 0
        || length site_id == 0
        || length default_master == 0)
      missing
  mqtt ← mqtt_value to_double long_max js toks (json_object_get js toks 0 (codes "mqtt"))
  ok (record {
    access_key = access_key;
    password = password;
    crypto_key = crypto_key;
    site_id = site_id;
    default_master = default_master;
    default_path = default_path;
    public_key = public_key;
    default_port = default_port;
    mqtt = mqtt;
  })

unfoldable pub identity_parse : (Bytes → Option Bool) → ℕ → Option Bytes → Result DeviceIdentity
identity_parse to_double long_max js = do
  toks ← json_parse js 192
  identity_of to_double long_max (text_or_empty js) toks
  where
    text_or_empty : Option Bytes → Bytes
    text_or_empty none = []
    text_or_empty (some text) = text
