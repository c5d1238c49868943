-- ===== src/Topics/Endpoint.antt =====
-- src/topics.c: what the split of an endpoint URL promises.
use thalovant_embedded_c.Base.{
  ℕ, ◌+◌, ◌-◌, ◌*◌, ◌≤◌, ◌<◌, true, some, [], ◌∷◌, map, ◌≡◌, refl, inl, inr, Bytes, length,
  length-map, ltb, ◌==◌, ok, invalid, nomem, fail_if, arith, Option-cases, >>=-eq-ok, to_lower,
}
use thalovant_embedded_c.Topics.{
  endpoint_max, path_max, scheme_max, UrlEndpoint, split_scheme, split_host, read_port, split_port,
  read_path, is_tls, default_port, parse_authority, endpoint_parse,
}
use thalovant_embedded_c.Topics.{parse_port_path}

read_port_bound :
    (s : Bytes) (n port : ℕ) (rest : Bytes)
    → n ≤ 65535
    → read_port n s ≡ ok (port, rest)
    → port ≤ 65535
unfolding read_port
read_port_bound [] n port rest small h = ground arith
read_port_bound (c ∷ s) n port rest small h =
    ground (arith, read_port_bound s (n * 10 + (c - b'0')) port rest)

split_port_bound :
    (s : Bytes) (port : ℕ) (rest : Bytes) → split_port s ≡ ok (port, rest) → port ≤ 65535
unfolding split_port
split_port_bound [] port rest h = ground arith
split_port_bound (c ∷ []) port rest h = ground arith
split_port_bound (c ∷ d ∷ s) port rest h = ground (arith, read_port_bound (d ∷ s) 0 port rest)

default_port_bound : (s : Bytes) → default_port s ≤ 65535
unfolding default_port
default_port_bound s = ground arith

read_path_bound : (s path : Bytes) → read_path s ≡ ok path → (s ≡ path) × (length path < path_max)
unfolding read_path
read_path_bound [] path h = ground arith
read_path_bound (c ∷ s) path h = ground arith

lower_twice : (s : Bytes) → map to_lower (map to_lower s) ≡ map to_lower s
unfolding to_lower
lower_twice [] = refl
lower_twice (c ∷ s) = ground (arith, lower_twice s)

-- The fields of a parsed endpoint.
pub record IsBounded (e : UrlEndpoint) : Type 0 where
  pub host_nonempty : 0 < length e.host
  pub host_fits : length e.host < endpoint_max
  pub path_fits : length e.path < path_max
  pub port_fits : e.port ≤ 65535

parse_port_path-IsBounded :
    (scheme host : Bytes) (port : ℕ) (rest : Bytes) (e : UrlEndpoint)
    → 0 < length host
    → length host < endpoint_max
    → port ≤ 65535
    → parse_port_path scheme host port rest ≡ ok e
    → IsBounded e × (e.scheme ≡ scheme) × (e.tls ≡ is_tls scheme)
unfolding parse_port_path
parse_port_path-IsBounded scheme host port rest e hn hf pf h =
    let (path, ep, done) = >>=-eq-ok (read_path rest) _ h in
    let fits = read_path_bound rest path ep in
    let same = default_port_bound scheme in (ground arith, ground arith, ground arith)

parse_authority-IsBounded :
    (scheme cursor : Bytes) (e : UrlEndpoint)
    → parse_authority scheme cursor ≡ ok e
    → IsBounded e × (e.scheme ≡ scheme) × (e.tls ≡ is_tls scheme)
unfolding parse_authority
parse_authority-IsBounded scheme cursor e h =
    let ((host, after), eh, h1) = >>=-eq-ok (split_host cursor) _ h in
    let (_, g1, h2) = >>=-eq-ok (fail_if (length host == 0) invalid) _ h1 in
    let (_, g2, h3) = >>=-eq-ok (fail_if (ltb endpoint_max (length host + 1)) nomem) _ h2 in
    let ((port, rest), ep, h4) = >>=-eq-ok (split_port after) _ h3 in
    parse_port_path-IsBounded scheme host port rest e (ground arith) (ground arith)
      (split_port_bound after port rest ep) h4

-- A parsed endpoint has a host that is not empty, a port of 16 bits, and fields that fit their
-- buffers; its scheme is in lower case, is not empty, and decides the TLS flag.
pub endpoint_parse_sound :
    (url : Bytes) (e : UrlEndpoint)
    → endpoint_parse (some url) true ≡ ok e
    → IsBounded e
      × (0 < length e.scheme)
      × (length e.scheme < scheme_max)
      × (map to_lower e.scheme ≡ e.scheme)
      × (e.tls ≡ is_tls e.scheme)
unfolding endpoint_parse
endpoint_parse_sound url e h = elim (Option-cases (split_scheme url)) [
  | inl r ↦ absurd (let g = rw (r, endpoint_parse) at h in cc)
  | inr ((before, cursor), r) ↦
      let h0 = rw (r, endpoint_parse) at h in
      let (_, g1, h1) = >>=-eq-ok (fail_if (length before == 0) invalid) _ h0 in
      let (_, g2, h2) = >>=-eq-ok (fail_if (ltb scheme_max (length before + 1)) nomem) _ h1 in
      let (bounded, scheme, tls) = parse_authority-IsBounded (map to_lower before) cursor e h2 in
      let size = length-map to_lower before in
      (
        bounded,
        rw scheme (ground arith),
        rw scheme (ground arith),
        rw scheme (lower_twice before),
        rw scheme tls,
      )
]
