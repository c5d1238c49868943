-- ===== src/Topics/Derive.antt =====
-- src/topics.c: the three channels that are derived from an identity.
use thalovant_embedded_c.Base.{
  [], ◌∷◌, All, All-append, Bool, ◌≢◌, ◌≤◌, ℕ, ◌<◌, true, not, some, ◌++◌, ◌≡◌, refl, Bytes, codes,
  length, length-append, length-trim_end, length-trim_start, ◌==◌, ok, arith, all, trim_start,
  trim_end, is_space,
}
use thalovant_embedded_c.Topics.{
  topic_prefix_max, trim_slashes, MqttTopics, is_wildcard_or_control, print_channels, topics_derive,
}
use thalovant_embedded_c.Identity.{DeviceIdentity}

-- No wildcard of MQTT and no control character.
abbrev pub IsClean : Bytes → Type 0
IsClean s = All (λ c. (c ≢ b'#') × (c ≢ b'+') × (0x20 ≤ c)) s

suffix-IsClean : IsClean (codes "/in") × IsClean (codes "/out") × IsClean (codes "/status")
suffix-IsClean = ground arith

-- The test of the code is that predicate.
abbrev passes : Bytes → Bool
passes s = all (λ c. not (is_wildcard_or_control c)) s

passes-IsClean : (s : Bytes) → passes s ≡ true → IsClean s
unfolding is_wildcard_or_control
passes-IsClean [] h = tt
passes-IsClean (c ∷ s) h =
    let rest : passes s ≡ true = ground arith in (ground arith, passes-IsClean s rest)

IsClean-passes : (s : Bytes) → IsClean s → passes s ≡ true
unfolding is_wildcard_or_control
IsClean-passes [] h = refl
IsClean-passes (c ∷ s) h = let (here, rest) = h in let tail = IsClean-passes s rest in ground arith

-- The topics of a prefix.
abbrev pub channels : Bytes → MqttTopics
channels prefix = record {
  inbound = prefix ++ codes "/in";
  outbound = prefix ++ codes "/out";
  status = prefix ++ codes "/status";
}

abbrev slashes_off : Bytes → Bytes
slashes_off text = trim_end (λ c. c == b'/') (trim_start (λ c. c == b'/') text)

-- The topic prefix without the slashes around it, and then without the white space around that.
abbrev pub normalized : DeviceIdentity → Bytes
normalized identity =
    trim_end is_space (trim_start is_space (slashes_off identity.mqtt.topic_prefix))

normalized_fits :
    (identity : DeviceIdentity) (n : ℕ)
    → length (slashes_off identity.mqtt.topic_prefix) < n
    → length (normalized identity) < n
normalized_fits identity n h =
    let text = slashes_off identity.mqtt.topic_prefix in
    omega
      (arith, length-trim_end is_space (trim_start is_space text), length-trim_start is_space text)

print_channels-eq :
    (prefix : Bytes)
    → length prefix < topic_prefix_max
    → print_channels prefix ≡ ok (channels prefix)
unfolding print_channels
print_channels-eq prefix h = ground (
  arith,
  length-append prefix (codes "/in"),
  length-append prefix (codes "/out"),
  length-append prefix (codes "/status"),
)

-- A device with credentials whose prefix fits, is not empty and is clean gets its three topics: the
-- buffers of the topics always suffice.
pub topics_derive_complete :
    (identity : DeviceIdentity)
    → identity.mqtt.present ≡ true
    → length (slashes_off identity.mqtt.topic_prefix) < topic_prefix_max
    → 0 < length (normalized identity)
    → IsClean (normalized identity)
    → topics_derive (some identity) true ≡ ok (channels (normalized identity))
unfolding topics_derive trim_slashes
topics_derive_complete identity present fits nonempty clean =
    let done =
      print_channels-eq (normalized identity) (normalized_fits identity topic_prefix_max fits) in
    let taken = IsClean-passes (normalized identity) clean in ground arith

topics_derive-eq-ok :
    (identity : DeviceIdentity) (t : MqttTopics)
    → topics_derive (some identity) true ≡ ok t
    → (print_channels (normalized identity) ≡ ok t)
      × (0 < length (normalized identity))
      × (passes (normalized identity) ≡ true)
      × (length (slashes_off identity.mqtt.topic_prefix) < topic_prefix_max)
unfolding topics_derive trim_slashes
topics_derive-eq-ok identity t h = ground arith

-- Whatever topics are derived are those of the normalized prefix, which is not empty, and no
-- character of a topic is a wildcard (`#` or `+`) or a control character (one below 0x20).
pub topics_derive_sound :
    (identity : DeviceIdentity) (t : MqttTopics)
    → topics_derive (some identity) true ≡ ok t
    → (t ≡ channels (normalized identity))
      × (0 < length (normalized identity))
      × IsClean t.inbound
      × IsClean t.outbound
      × IsClean t.status
topics_derive_sound identity t h =
    let (run, nonempty, taken, fits) = topics_derive-eq-ok identity t h in
    let p = normalized identity in
    let clean = passes-IsClean p taken in
    let done = print_channels-eq p (normalized_fits identity topic_prefix_max fits) in
    let e : t ≡ channels p = cc (run, done) in
    rw e (
      refl,
      nonempty,
      All-append _ p _ clean suffix-IsClean.0,
      All-append _ p _ clean suffix-IsClean.1,
      All-append _ p _ clean suffix-IsClean.2,
    )
