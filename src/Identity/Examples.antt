-- ===== src/Identity/Examples.antt =====
-- src/identity.c on an example.
use thalovant_embedded_c.Base.{
  ◌-◌, ◌^◌, false, none, some, [], refl, Bytes, codes, trim_start, trim_end, is_space, is_digit,
}
use thalovant_embedded_c.Identity.{DeviceIdentity}
use thalovant_embedded_c.Identity.Parse.{
  get_string, strip_trailing_slashes, normalize_path, chosen_port, port_of, mqtt_value, no_mqtt,
  identity_of, identity_parse,
}
use thalovant_embedded_c.Identity.Sound.{IsIdentity, identity_parse-IsIdentity}
use thalovant_embedded_c.Json.Escape.{json_unescape, unescape_loop, unescape_item, plain_escape}
use thalovant_embedded_c.Json.Lookup.{
  json_skip, json_object_get, json_object_get_alias, unless_null, tok_is_null, find_member,
  json_str_eq, same_kind, text_is, tok_text, tok_at, skip_children,
}
use thalovant_embedded_c.Json.Coerce.{
  json_as_string, json_as_int, string_text, copied_text, trim_in_place, c_string, or_invalid_text,
  strtol_whole, decimal, in_long,
}
use thalovant_embedded_c.Json.{
  alloc_tok, check_primitive, count_while, escape_item, finish_tok, grow_tok, is_escape,
  is_hex_digit, is_primitive_end, json_max_depth, parse_primitive, parse_string, set_size,
  skip_digits, skip_exp, skip_frac, skip_int, skip_sign, skip_ws, string_end, string_item,
}
use thalovant_embedded_c.Json.Values.{
  json_parse, parse_container, parse_item, parse_items, parse_member, parse_separator, parse_value,
}

abbrev text : Bytes
text =
    codes
      "{\"key\":\"k\",\"password\":\"p\",\"site\":\"s\",\"host\":\"h/\",\"path\":\"/x/\",\"port\":\" 80\"}"

abbrev device : DeviceIdentity
device = record {
  access_key = codes "k";
  password = codes "p";
  crypto_key = [];
  site_id = codes "s";
  default_master = codes "h";
  default_path = codes "/x";
  public_key = [];
  default_port = 80;
  mqtt = record {
    present = false;
    endpoint = [];
    username = [];
    password = [];
    tls = false;
    qos = 0;
    topic_prefix = [];
  };
}

identity_parse-IsIdentity_example : IsIdentity device
unfolding identity_parse identity_of get_string strip_trailing_slashes normalize_path chosen_port
    port_of mqtt_value no_mqtt json_unescape unescape_loop unescape_item plain_escape json_skip
    json_object_get json_object_get_alias unless_null tok_is_null find_member json_str_eq same_kind
    text_is tok_text tok_at skip_children json_as_string json_as_int string_text copied_text
    trim_in_place c_string or_invalid_text strtol_whole decimal in_long alloc_tok check_primitive
    count_while escape_item finish_tok grow_tok is_escape is_hex_digit is_primitive_end
    json_max_depth parse_primitive parse_string set_size skip_digits skip_exp skip_frac skip_int
    skip_sign skip_ws string_end string_item json_parse parse_container parse_item parse_items
    parse_member parse_separator parse_value trim_start trim_end is_space is_digit
identity_parse-IsIdentity_example =
    identity_parse-IsIdentity (λ number. none) (2 ^ 31 - 1) (some text) device refl
