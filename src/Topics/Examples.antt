-- ===== src/Topics/Examples.antt =====
-- Runs of src/topics.c at concrete inputs.
use thalovant_embedded_c.Base.{
  take, ◌++◌, ◌+◌, ◌≤◌, ◌<◌, min, true, some, [], ◌∷◌, ◌++◌, map, ◌≡◌, refl, Bytes, codes, length,
  ok, arith, all, trim_start, trim_end, is_space, is_digit, to_lower,
}
use thalovant_embedded_c.Identity.{DeviceIdentity}
use thalovant_embedded_c.Topics.{
  MqttTopics, UrlEndpoint, client_prefix, default_port, ends_host, endpoint_parse, is_safe, is_tls,
  is_wildcard_or_control, mqtt_client_id, parse_authority, parse_port_path, print_channels,
  read_path, read_port, span_until, split_host, split_port, split_scheme, topics_derive,
  trim_slashes, scheme_max,
}
use thalovant_embedded_c.Topics.Derive.{
  IsClean, channels, normalized, topics_derive_complete, topics_derive_sound,
}
use thalovant_embedded_c.Topics.ClientId.{StandsFor, mqtt_client_id_sound, mqtt_client_id_complete}
use thalovant_embedded_c.Topics.Endpoint.{IsBounded, endpoint_parse_sound}
use thalovant_embedded_c.Topics.UrlRoundTrip.{IsUrl, endpoint_parse-url}

abbrev device : DeviceIdentity
device = record {
  access_key = codes "key 1";
  password = [];
  crypto_key = [];
  site_id = [];
  default_master = [];
  default_path = [];
  public_key = [];
  default_port = 0;
  mqtt = record {
    present = true;
    endpoint = codes "mqtts://hub/";
    username = [];
    password = [];
    tls = true;
    qos = 1;
    topic_prefix = codes "/hub/a7 /";
  };
}

abbrev device_topics : MqttTopics
device_topics = record {
  inbound = codes "hub/a7/in";
  outbound = codes "hub/a7/out";
  status = codes "hub/a7/status";
}

derive_topics : topics_derive (some device) true ≡ ok device_topics
unfolding topics_derive trim_slashes print_channels is_wildcard_or_control trim_start trim_end
    is_space
derive_topics = refl

topics_derive_sound_example :
    (device_topics ≡ channels (normalized device))
    × (0 < length (normalized device))
    × IsClean device_topics.inbound
    × IsClean device_topics.outbound
    × IsClean device_topics.status
topics_derive_sound_example = topics_derive_sound device device_topics derive_topics

topics_derive_complete_example :
    topics_derive (some device) true ≡ ok (channels (normalized device))
unfolding trim_start trim_end is_space is_wildcard_or_control
topics_derive_complete_example =
    topics_derive_complete device refl (omega arith) (omega arith) (ground arith)

client_id : mqtt_client_id (some (codes "key 1")) (some 40) ≡ ok (codes "thalovant-key-1")
unfolding mqtt_client_id is_safe
client_id = refl

mqtt_client_id_sound_example :
    ((text : Bytes) × (codes "thalovant-key-1" ≡ codes "thalovant-" ++ text)
      × StandsFor (take 48 (codes "key 1")) text)
    × (all is_safe (codes "thalovant-key-1") ≡ true)
    × (length (codes "thalovant-key-1") ≡ 10 + min 48 (length (codes "key 1")))
    × (length (codes "thalovant-key-1") < 40)
mqtt_client_id_sound_example =
    mqtt_client_id_sound (codes "key 1") 40 (codes "thalovant-key-1") client_id

mqtt_client_id_complete_example :
    (s : Bytes) × (mqtt_client_id (some (codes "key-1")) (some 59) ≡ ok s)
    × (all is_safe (codes "key-1") ≡ true
        → length (codes "key-1") ≤ 48
        → s ≡ client_prefix ++ codes "key-1")
mqtt_client_id_complete_example =
    mqtt_client_id_complete (codes "key-1") 59 (omega arith) (omega arith)

abbrev hub_endpoint : UrlEndpoint
hub_endpoint = record {
  scheme = codes "mqtts";
  host = codes "hub.local";
  path = codes "/mqtt";
  port = 8884;
  tls = true;
}

parse_hub : endpoint_parse (some (codes "MQTTS://hub.local:8884/mqtt")) true ≡ ok hub_endpoint
unfolding endpoint_parse parse_authority parse_port_path split_scheme split_host span_until
    ends_host split_port read_port read_path is_tls default_port to_lower is_digit
parse_hub = refl

endpoint_parse_sound_example :
    IsBounded hub_endpoint
    × (0 < length hub_endpoint.scheme)
    × (length hub_endpoint.scheme < scheme_max)
    × (map to_lower hub_endpoint.scheme ≡ hub_endpoint.scheme)
    × (hub_endpoint.tls ≡ is_tls hub_endpoint.scheme)
endpoint_parse_sound_example =
    endpoint_parse_sound (codes "MQTTS://hub.local:8884/mqtt") hub_endpoint parse_hub

hub-IsUrl : IsUrl (codes "MQTTS") (codes "hub.local") (codes "8884") (codes "/mqtt")
unfolding ends_host is_digit
hub-IsUrl = record {
  scheme_nonempty = omega arith;
  scheme_fits = omega arith;
  scheme_plain = refl;
  host_nonempty = omega arith;
  host_fits = omega arith;
  host_plain = refl;
  host_unbracketed = refl;
  digits_nonempty = omega arith;
  digits_plain = refl;
  port_nonzero = omega arith;
  port_fits = omega arith;
  path_starts = refl;
  path_fits = omega arith;
}

endpoint_parse-url_example :
    endpoint_parse
      (some (
        codes "MQTTS"
        ++ codes "://"
        ++ (codes "hub.local" ++ b':' ∷ (codes "8884" ++ codes "/mqtt"))))
      true
    ≡ ok (record {
      scheme = map to_lower (codes "MQTTS");
      host = codes "hub.local";
      path = codes "/mqtt";
      port = 8884;
      tls = is_tls (map to_lower (codes "MQTTS"));
    })
endpoint_parse-url_example =
    endpoint_parse-url (codes "MQTTS") (codes "hub.local") (codes "8884") (codes "/mqtt") hub-IsUrl
