-- ===== src/Topics/UrlRoundTrip.antt =====
-- src/topics.c: an endpoint that is written out as a URL is split into its parts again.
use thalovant_embedded_c.Base.{
  ℕ, ◌+◌, ◌-◌, ◌*◌, ◌≤◌, ◌<◌, Bool, true, not, ◌||◌, some, [], ◌∷◌, ◌++◌, map, ◌≡◌, refl, Bytes,
  codes, length, length-map, take, ◌==◌, ok, arith, all, is_digit, to_lower,
}
use thalovant_embedded_c.Topics.{
  endpoint_max, path_max, scheme_max, split_scheme, span_until, ends_host, split_host, read_port,
  split_port, read_path, is_tls, parse_port_path, parse_authority, endpoint_parse,
}

-- A scheme or host of the plain form, and the digits of a port.
abbrev pub HasNone : (ℕ → Bool) → Bytes → Type 0
HasNone p s = all (λ c. not (p c)) s ≡ true

split_scheme-append :
    (scheme rest : Bytes)
    → HasNone (λ c. c == b':') scheme
    → split_scheme (scheme ++ codes "://" ++ rest) ≡ some (scheme, rest)
unfolding split_scheme
split_scheme-append [] rest h = refl
split_scheme-append (c ∷ s) rest h =
    ground (arith, λ (g : HasNone (λ c. c == b':') s). split_scheme-append s rest g)

-- The rest of a URL begins with a character that ends the span, or is empty.
abbrev pub Stops : (ℕ → Bool) → Bytes → Type 0
Stops p [] = Unit
Stops p (c ∷ _) = p c ≡ true

span_until-append :
    (p : ℕ → Bool) (s rest : Bytes)
    → HasNone p s
    → Stops p rest
    → span_until p (s ++ rest) ≡ (s, rest)
unfolding span_until
span_until-append p [] [] h g = refl
span_until-append p [] (c ∷ rest) h g = rw g
span_until-append p (c ∷ s) rest h g =
    ground (arith, λ (k : HasNone p s). span_until-append p s rest k g)

abbrev pub port_value : ℕ → Bytes → ℕ
port_value n [] = n
port_value n (c ∷ s) = port_value (n * 10 + (c - b'0')) s

port_value_grows : (s : Bytes) (n : ℕ) → n ≤ port_value n s
port_value_grows [] n = omega arith
port_value_grows (c ∷ s) n = omega (arith, port_value_grows s (n * 10 + (c - b'0')))

read_port-append :
    (s rest : Bytes) (n : ℕ)
    → all is_digit s ≡ true
    → HasNone is_digit (take 1 rest)
    → port_value n s ≤ 65535
    → read_port n (s ++ rest) ≡ ok (port_value n s, rest)
unfolding read_port
read_port-append [] [] n h g small = refl
read_port-append [] (c ∷ rest) n h g small = ground arith
read_port-append (c ∷ s) rest n h g small = ground (
  arith,
  port_value_grows s (n * 10 + (c - b'0')),
  λ (k : all is_digit s ≡ true). read_port-append s rest (n * 10 + (c - b'0')) k g small,
)

abbrev starts_path : ℕ → Bool
starts_path c = c == b'/' || c == b'?'

-- The parts of a URL with a plain host and an explicit port.
pub record IsUrl (scheme host digits path : Bytes) : Type 0 where
  pub scheme_nonempty : 0 < length scheme
  pub scheme_fits : length scheme < scheme_max
  pub scheme_plain : HasNone (λ c. c == b':') scheme
  pub host_nonempty : 0 < length host
  pub host_fits : length host < endpoint_max
  pub host_plain : HasNone ends_host host
  pub host_unbracketed : HasNone (λ c. c == b'[') (take 1 host)
  pub digits_nonempty : 0 < length digits
  pub digits_plain : all is_digit digits ≡ true
  pub port_nonzero : 0 < port_value 0 digits
  pub port_fits : port_value 0 digits ≤ 65535
  pub path_starts : Stops starts_path path
  pub path_fits : length path < path_max

path_no_digit : (path : Bytes) → Stops starts_path path → HasNone is_digit (take 1 path)
unfolding is_digit
path_no_digit [] h = refl
path_no_digit (c ∷ path) h = ground arith

split_host-append :
    (host rest : Bytes)
    → 0 < length host
    → HasNone ends_host host
    → HasNone (λ c. c == b'[') (take 1 host)
    → split_host (host ++ b':' ∷ rest) ≡ ok (host, b':' ∷ rest)
unfolding split_host
split_host-append [] rest n h g = absurd (omega arith)
split_host-append (c ∷ host) rest n h g =
    ground (arith, span_until-append ends_host (c ∷ host) (b':' ∷ rest) h colon)
  where
    colon : ends_host b':' ≡ true
    colon = unfold ends_host in refl

split_port-append :
    (digits path : Bytes)
    → 0 < length digits
    → all is_digit digits ≡ true
    → Stops starts_path path
    → port_value 0 digits ≤ 65535
    → split_port (b':' ∷ (digits ++ path)) ≡ ok (port_value 0 digits, path)
unfolding split_port
split_port-append [] path n h g small = absurd (omega arith)
split_port-append (d ∷ digits) path n h g small =
    ground (arith, read_port-append (d ∷ digits) path 0 h (path_no_digit path g) small)

read_path-eq :
    (path : Bytes) → Stops starts_path path → length path < path_max → read_path path ≡ ok path
unfolding read_path
read_path-eq [] h g = refl
read_path-eq (c ∷ path) h g = ground arith

-- A URL that is written from parts as `IsUrl` describes them (parts that are not empty and fit their
-- buffers, a scheme and a host without the characters that end them, a port from 1 to 65535, and a
-- path that starts with `/` or `?` or is empty) is split into these parts, the scheme in lower case.
pub endpoint_parse-url :
    (scheme host digits path : Bytes)
    → IsUrl scheme host digits path
    → endpoint_parse (some (scheme ++ codes "://" ++ (host ++ b':' ∷ (digits ++ path)))) true
      ≡ ok (record {
        scheme = map to_lower scheme;
        host = host;
        path = path;
        port = port_value 0 digits;
        tls = is_tls (map to_lower scheme);
      })
unfolding endpoint_parse parse_authority parse_port_path
endpoint_parse-url scheme host digits path u =
    let size = length-map to_lower scheme in
    ground (
      arith,
      split_scheme-append scheme (host ++ b':' ∷ (digits ++ path)) u.scheme_plain,
      split_host-append host (digits ++ path) u.host_nonempty u.host_plain u.host_unbracketed,
      split_port-append digits path u.digits_nonempty u.digits_plain u.path_starts u.port_fits,
      read_path-eq path u.path_starts u.path_fits,
    )
