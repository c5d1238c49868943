-- ===== src/Topics/ClientId.antt =====
-- src/topics.c: the client id of a device.
use thalovant_embedded_c.Base.{
  codes, false, ◌⊎◌, inl, inr, Bool-cases, ℕ, ◌+◌, ◌≤◌, ◌<◌, min, true, some, [], ◌∷◌, ◌++◌, map,
  ◌≡◌, refl, ap, Bytes, length, length-append, length-take, length-map, take, take_all, all-append,
  if◌then◌else◌, ok, arith, all,
}
use thalovant_embedded_c.Topics.{is_safe, client_prefix, mqtt_client_id}

safe_map : (s : Bytes) → all is_safe (map (λ c. if is_safe c then c else b'-') s) ≡ true
unfolding is_safe
safe_map [] = refl
safe_map (c ∷ s) = ground (arith, safe_map s)

prefix_safe : all is_safe client_prefix ≡ true
unfolding is_safe
prefix_safe = refl

abbrev replaced : Bytes → Bytes
replaced key = map (λ c. if is_safe c then c else b'-') (take 48 key)

client_id-eq-ok :
    (key : Bytes) (room : ℕ) (s : Bytes)
    → mqtt_client_id (some key) (some room) ≡ ok s
    → (client_prefix ++ replaced key ≡ s) × (length (take 48 key) + 11 ≤ room) × (0 < length key)
unfolding mqtt_client_id
client_id-eq-ok key room s h = ground arith

-- A text with one character for each of the key: a safe character itself, `-` for another.
pub StandsFor : Bytes → Bytes → Type 0
StandsFor [] [] = Unit
StandsFor (k ∷ key) (c ∷ text) =
    ((is_safe k ≡ true) × (c ≡ k) ⊎ (is_safe k ≡ false) × (c ≡ b'-')) × StandsFor key text
StandsFor _ _ = ⊥

replaced-StandsFor : (key : Bytes) → StandsFor key (map (λ c. if is_safe c then c else b'-') key)
unfolding StandsFor
replaced-StandsFor [] = tt
replaced-StandsFor (k ∷ key) = (
  elim (Bool-cases (is_safe k)) [
    | inl safe ↦ inl (safe, rw safe refl)
    | inr other ↦ inr (other, rw other refl)
  ],
  replaced-StandsFor key,
)

-- A client id is the prefix `thalovant-` and one character for each of the first 48 characters of
-- the access key, which is the key's own where it is a letter, a digit, `_` or `-`, and `-` where it
-- is not; all its characters are safe; and it fits its buffer with the terminator.
pub mqtt_client_id_sound :
    (key : Bytes) (room : ℕ) (s : Bytes)
    → mqtt_client_id (some key) (some room) ≡ ok s
    → ((text : Bytes) × (s ≡ codes "thalovant-" ++ text) × StandsFor (take 48 key) text)
      × (all is_safe s ≡ true)
      × (length s ≡ 10 + min 48 (length key))
      × (length s < room)
mqtt_client_id_sound key room s h =
    let (e, fits, _) = client_id-eq-ok key room s h in
    let size = length-append client_prefix (replaced key) in
    let size' = length-map (λ c. if is_safe c then c else b'-') (take 48 key) in
    let size'' = length-take 48 key in
    rw (← e) (
      (replaced key, refl, replaced-StandsFor (take 48 key)),
      all-append is_safe client_prefix _ prefix_safe (safe_map (take 48 key)),
      omega arith,
      omega arith,
    )

-- Every access key that is not empty has a client id, in a buffer of 59 bytes; a key of at most 48
-- safe characters stands in it unchanged.
pub mqtt_client_id_complete :
    (key : Bytes) (room : ℕ)
    → 0 < length key
    → 59 ≤ room
    → (s : Bytes) × (mqtt_client_id (some key) (some room) ≡ ok s)
      × (all is_safe key ≡ true → length key ≤ 48 → s ≡ client_prefix ++ key)
mqtt_client_id_complete key room nonempty fits = (
  client_prefix ++ replaced key,
  run (length-take 48 key),
  λ safe short. ap (λ t. client_prefix ++ t) (rw (take_all 48 key short) (keep key safe)),
)
  where
    run :
        length (take 48 key) ≡ min 48 (length key)
        → mqtt_client_id (some key) (some room) ≡ ok (client_prefix ++ replaced key)
    run e = unfold mqtt_client_id in ground arith

    keep : (s : Bytes) → all is_safe s ≡ true → map (λ c. if is_safe c then c else b'-') s ≡ s
    keep [] h = refl
    keep (c ∷ s) h = ground (arith, λ (g : all is_safe s ≡ true). keep s g)
