-- ===== src/Identity/Sound.antt =====
-- src/identity.c: what holds of every identity that is accepted.
use thalovant_embedded_c.Base.{
  ℕ, ◌+◌, ◌≤◌, ◌<◌, Bool, false, not, ◌||◌, Option, none, some, List, [], ◌∷◌, ◌≡◌, refl, sym,
  subst, ◌⊎◌, inl, inr, Bytes, length, ltb, ◌==◌, Result, ok, err, stuck, invalid, nomem, json,
  missing, arith, Bool-cases, >>=-eq-ok, fail_if-eq-ok, trim_start, trim_end, last_or,
  last_or-trim_end, trim_start-cases, trim_end-head, ◌≢◌, Ensures, >>=-Ensures, fail_if-Ensures,
  ok-Ensures,
}
use thalovant_embedded_c.Identity.{MqttCredentials, DeviceIdentity}
use thalovant_embedded_c.Json.{JsonTok, object}
use thalovant_embedded_c.Json.Values.{json_parse}
use thalovant_embedded_c.Json.Lookup.{tok_at, same_kind}
use thalovant_embedded_c.Json.Coerce.{json_as_int}
use thalovant_embedded_c.Identity.Parse.{
  get_string, strip_trailing_slashes, normalize_path, qos_of, qos_value, no_mqtt, parse_mqtt,
  port_of, chosen_port, mqtt_value, identity_of, identity_parse,
}

-- No path, or one that begins with its only outer slash.
abbrev pub IsPath : Bytes → Type 0
IsPath path =
    (path ≡ [])
    ⊎ ((c : ℕ) × (rest : Bytes) × (path ≡ b'/' ∷ c ∷ rest) × (c ≢ b'/') × (last_or c rest ≢ b'/'))

ok_one : {A : Type 0} {a b : A} → ok a ≡ ok b → a ≡ b
ok_one g = cc

-- What is left between the slashes, where anything is.
between_slashes :
    (path : Bytes)
    → let name = trim_end (λ c. c == b'/') (trim_start (λ c. c == b'/') path) in
      (name ≡ [])
      ⊎ ((c : ℕ) × (rest : Bytes) × (name ≡ c ∷ rest) × (c ≢ b'/') × (last_or c rest ≢ b'/'))
unfolding last_or trim_end
between_slashes path = elim (trim_start-cases (λ c. c == b'/') path) [
  | inl none_left ↦ inl (rw none_left refl)
  | inr (c, cs, starts, kept) ↦
      let (rest, same) = trim_end-head (λ c. c == b'/') c cs kept in
      let ends : (last_or c (trim_end (λ c. c == b'/') (c ∷ cs)) == b'/') ≡ false =
        last_or-trim_end (λ c. c == b'/') c (c ∷ cs) kept in
      let ends' : (last_or c rest == b'/') ≡ false = rw same at ends in
      inr (c, rest, rw starts same, ground arith, ground arith)
]

normalize_path-IsPath :
    (path out : Bytes) (room : ℕ)
    → normalize_path path room ≡ ok out
    → IsPath out × (length out ≤ room)
unfolding normalize_path
normalize_path-IsPath path out room h = elim (between_slashes path) [
  | inl none_left ↦
      let empty : [] ≡ out = ok_one (rw none_left at h) in
      (inl (sym empty), rw (sym empty) (omega arith))
  | inr (c, rest, name, starts, ends) ↦
      let some_left : (length (c ∷ rest) == 0) ≡ false = ground arith in
      let (fits, made) =
        fail_if-eq-ok (ltb room (length (c ∷ rest) + 2)) nomem _ (rw (name, some_left) at h) in
      let same : b'/' ∷ c ∷ rest ≡ out = ok_one made in
      (inr (c, rest, sym same, starts, ends), rw (sym same) (ground arith))
]

port_of-bound :
    (r : Result (Bool × ℕ)) (port : ℕ) → port_of r ≡ ok port → (0 < port) × (port ≤ 65535)
unfolding port_of
port_of-bound stuck port h = cc
port_of-bound (err missing) port h = let e : 5679 ≡ port = cc in (omega arith, omega arith)
port_of-bound (err invalid) port h = cc
port_of-bound (ok (negative, value)) port h =
    let (inside, made) = fail_if-eq-ok (negative || value == 0 || ltb 65535 value) invalid _ h in
    let e : value ≡ port = cc in (ground arith, ground arith)
port_of-bound (err code) port h = cc

-- Credentials for MQTT that count as present have what a connection needs.
abbrev pub IsUsable : MqttCredentials → Type 0
IsUsable mqtt =
    (mqtt.present ≡ false)
    ⊎ (0 < length mqtt.endpoint) × (0 < length mqtt.username) × (0 < length mqtt.password)

qos_value-bound :
    (long_max : ℕ) (js : Bytes) (toks : List JsonTok) (value : Option ℕ)
    → qos_value long_max js toks value ≤ 1
unfolding qos_value qos_of
qos_value-bound long_max js toks none = omega arith
qos_value-bound long_max js toks (some value) = bound (json_as_int long_max js (tok_at toks value))
  where
    bound : (r : Result (Bool × ℕ)) → qos_of r ≤ 1
    bound stuck = omega arith
    bound (err code) = omega arith
    bound (ok (negative, n)) = ground arith

parse_mqtt-IsUsable :
    (to_double : Bytes → Option Bool) (long_max : ℕ) (js : Bytes) (toks : List JsonTok) (obj : ℕ)
    (mqtt : MqttCredentials)
    → parse_mqtt to_double long_max js toks obj ≡ ok mqtt
    → IsUsable mqtt × (mqtt.qos ≤ 1)
unfolding parse_mqtt no_mqtt
parse_mqtt-IsUsable to_double long_max js toks obj mqtt h =
    let (endpoint, a, h1) = >>=-eq-ok (get_string js toks obj _ 128) _ h in
    let (username, b, h2) = >>=-eq-ok (get_string js toks obj _ 96) _ h1 in
    let (password, c, h3) = >>=-eq-ok (get_string js toks obj _ 128) _ h2 in
    let usable = not (length endpoint == 0 || length username == 0 || length password == 0) in
    elim (Bool-cases usable) [
      | inl e ↦
          let (topic_prefix, d, h4) = >>=-eq-ok (get_string js toks obj _ 160) _ (rw e at h3) in
          let low = qos_value-bound long_max js toks _ in
          subst (λ (m : MqttCredentials). IsUsable m × (m.qos ≤ 1)) (ok_one h4)
            (inr (ground arith, ground arith, ground arith), low)
      | inr e ↦
          subst (λ (m : MqttCredentials). IsUsable m × (m.qos ≤ 1)) (ok_one (rw e at h3))
            (inl refl, omega arith)
    ]

mqtt_value-IsUsable :
    (to_double : Bytes → Option Bool) (long_max : ℕ) (js : Bytes) (toks : List JsonTok)
    (value : Option ℕ) (mqtt : MqttCredentials)
    → mqtt_value to_double long_max js toks value ≡ ok mqtt
    → IsUsable mqtt × (mqtt.qos ≤ 1)
unfolding mqtt_value no_mqtt
mqtt_value-IsUsable to_double long_max js toks none mqtt h =
    subst (λ (m : MqttCredentials). IsUsable m × (m.qos ≤ 1)) (ok_one h) (inl refl, omega arith)
mqtt_value-IsUsable to_double long_max js toks (some value) mqtt h =
    elim (Bool-cases (same_kind (tok_at toks value).kind object)) [
      | inl e ↦ parse_mqtt-IsUsable to_double long_max js toks value mqtt (rw e at h)
      | inr e ↦
          subst (λ (m : MqttCredentials). IsUsable m × (m.qos ≤ 1)) (ok_one (rw e at h))
            (inl refl, omega arith)
    ]

chosen_port-bound :
    (long_max : ℕ) (js : Bytes) (toks : List JsonTok) (value : Option ℕ) (port : ℕ)
    → chosen_port long_max js toks value ≡ ok port
    → (0 < port) × (port ≤ 65535)
unfolding chosen_port
chosen_port-bound long_max js toks none port h =
    let e : 5679 ≡ port = ok_one h in (omega arith, omega arith)
chosen_port-bound long_max js toks (some value) port h =
    port_of-bound (json_as_int long_max js (tok_at toks value)) port h

-- An accepted identity.
abbrev pub IsIdentity : DeviceIdentity → Type 0
IsIdentity d =
    (0 < length d.access_key)
    × (0 < length d.password)
    × (0 < length d.site_id)
    × (0 < length d.default_master)
    × (last_or 0 d.default_master ≢ b'/')
    × IsPath d.default_path
    × (length d.default_path ≤ 64)
    × (0 < d.default_port)
    × (d.default_port ≤ 65535)
    × IsUsable d.mqtt
    × (d.mqtt.qos ≤ 1)

identity_of-IsIdentity :
    (to_double : Bytes → Option Bool) (long_max : ℕ) (js : Bytes) (toks : List JsonTok)
    → Ensures IsIdentity (identity_of to_double long_max js toks)
unfolding identity_of strip_trailing_slashes
identity_of-IsIdentity to_double long_max js toks =
    fail_if-Ensures IsIdentity (not (same_kind (tok_at toks 0).kind object)) json _ (λ kind.
      >>=-Ensures IsIdentity (get_string js toks 0 _ 128) _ (λ access_key a.
        >>=-Ensures IsIdentity (get_string js toks 0 _ 128) _ (λ password b.
          >>=-Ensures IsIdentity (get_string js toks 0 _ 64) _ (λ crypto_key c.
            >>=-Ensures IsIdentity (get_string js toks 0 _ 64) _ (λ site_id e.
              >>=-Ensures IsIdentity (get_string js toks 0 _ 128) _ (λ master f.
                >>=-Ensures IsIdentity (get_string js toks 0 _ 64) _ (λ path g.
                  >>=-Ensures IsIdentity (normalize_path path 64) _ (λ default_path normal.
                    >>=-Ensures IsIdentity (get_string js toks 0 _ 256) _ (λ public_key i.
                      >>=-Ensures IsIdentity (chosen_port long_max js toks _) _ (λ port j.
                        fail_if-Ensures IsIdentity
                          (length access_key == 0
                            || length password == 0
                            || length site_id == 0
                            || length (trim_end (λ c. c == b'/') master) == 0)
                          missing _
                          (λ given.
                            >>=-Ensures IsIdentity (mqtt_value to_double long_max js toks _) _
                              (λ mqtt k.
                                let (shape, short) =
                                  normalize_path-IsPath path default_path 64 normal in
                                let (low, high) = chosen_port-bound long_max js toks _ port j in
                                let (usable, qos) =
                                  mqtt_value-IsUsable to_double long_max js toks _ mqtt k in
                                let clean = last_or-trim_end (λ c. c == b'/') 0 master refl in
                                ok-Ensures IsIdentity _ (
                                  ground arith,
                                  ground arith,
                                  ground arith,
                                  ground arith,
                                  ground arith,
                                  shape,
                                  short,
                                  low,
                                  high,
                                  usable,
                                  qos,
                                )))))))))))))

-- Every identity that `identity_parse` accepts has an access key, a password, a site id and a master
-- that are not empty, a master that does not end in a slash, a path that is empty or
-- begins with a slash and has no other slash at its ends, a port from 1 to 65535, a quality of service of 0 or 1, and credentials for
-- MQTT that are absent or have an endpoint, a user and a password.
pub identity_parse-IsIdentity :
    (to_double : Bytes → Option Bool) (long_max : ℕ) (js : Option Bytes) (d : DeviceIdentity)
    → identity_parse to_double long_max js ≡ ok d
    → IsIdentity d
unfolding identity_parse
identity_parse-IsIdentity to_double long_max js d h =
    let (toks, parsed, rest) = >>=-eq-ok (json_parse js 192) _ h in
    identity_of-IsIdentity to_double long_max _ toks d rest
