-- ===== src/Codec/Base64.antt =====
-- src/codec.c: what the Base64 encoder and decoder promise.
use thalovant_embedded_c.Base.{
  ℕ, ◌+◌, ◌-◌, ◌*◌, ◌/◌, ◌%◌, ◌^◌, ◌<◌, Bool, true, false, Option, none, some, [], ◌∷◌, ◌++◌, ◌≡◌,
  refl, ap, bit_or, Bytes, IsByte, All, get_or, leb, ◌==◌, if◌then◌else◌, Result, ok, err, stuck,
  ◌>>=◌, arith, all_below, all_below→eq,
}
use thalovant_embedded_c.Base.Bits.{bit_and_mask, bit_or_join}
use thalovant_embedded_c.Codec.{b64_digits, b64_chars, b64_value, b64_bytes}

value_is : Option ℕ → ℕ → Bool
value_is none n = false
value_is (some m) n = m == n

value_is→eq : (o : Option ℕ) (n : ℕ) → value_is o n ≡ true → o ≡ some n
unfolding value_is
value_is→eq none n h = cc
value_is→eq (some m) n h = ground arith

value_table : all_below 64 (λ n. value_is (b64_value (get_or b64_digits n 0)) n) ≡ true
unfolding all_below b64_value value_is
value_table = refl

b64_value-digit : (n : ℕ) → n < 64 → b64_value (get_or b64_digits n 0) ≡ some n
b64_value-digit n h = value_is→eq _ n (all_below→eq 64 _ value_table n h)

shift_in : (acc v : ℕ) → v < 64 → bit_or (acc * 2 ^ 6 % 2 ^ 32) v ≡ acc * 64 % 2 ^ 32 + v
shift_in acc v h =
    let e : acc * 2 ^ 6 % 2 ^ 32 ≡ acc % 2 ^ 26 * 2 ^ 6 = omega arith in
    rw e (omega (arith, e, bit_or_join 6 26 (acc % 2 ^ 26) v (omega arith) h))

-- One round of the decoder's loop on the character of a value.
b64_bytes-digit :
    (v : ℕ) (cs : Bytes) (acc bits : ℕ)
    → v < 64
    → b64_bytes (get_or b64_digits v 0 ∷ cs) acc bits ≡ (
        if leb 8 (bits + 6)
        then (b64_bytes cs (acc * 64 % 2 ^ 32 + v) (bits + 6 - 8) >>= λ out.
            ok (((acc * 64 % 2 ^ 32 + v) / 2 ^ (bits + 6 - 8) % 256) ∷ out))
        else b64_bytes cs (acc * 64 % 2 ^ 32 + v) (bits + 6))
unfolding b64_bytes
b64_bytes-digit v cs acc bits h =
    rw (b64_value-digit v h, shift_in acc v h)
      (rw (bit_and_mask 8 ((acc * 64 % 2 ^ 32 + v) / 2 ^ (bits + 6 - 8))) refl)

bind_three :
    (r : Result Bytes) (x y z : ℕ)
    → (r >>= (λ o. ok (z ∷ o)) >>= (λ o. ok (y ∷ o)) >>= (λ o. ok (x ∷ o)))
      ≡ (r >>= λ o. ok (x ∷ y ∷ z ∷ o))
bind_three (ok o) x y z = refl
bind_three (err e) x y z = refl
bind_three stuck x y z = refl

abbrev shifted : ℕ → ℕ → ℕ
shifted acc v = acc * 64 % 2 ^ 32 + v

-- Two, three and four characters from an empty bit buffer.
module _ (v w : ℕ) (hv : v < 64) (hw : w < 64) (acc : ℕ) where
  b64_bytes-two :
      (cs : Bytes)
      → b64_bytes (get_or b64_digits v 0 ∷ get_or b64_digits w 0 ∷ cs) acc 0
        ≡ (b64_bytes cs (shifted (shifted acc v) w) 4 >>= λ o. ok ((v * 4 + w / 16) ∷ o))
  b64_bytes-two cs =
      let e : shifted (shifted acc v) w / 16 % 256 ≡ v * 4 + w / 16 = omega arith in
      rw (b64_bytes-digit v _ acc 0 hv) (
        rw (b64_bytes-digit w cs (shifted acc v) 6 hw)
          (ap (λ t. b64_bytes cs (shifted (shifted acc v) w) 4 >>= λ o. ok (t ∷ o)) e))

module _ (v w x : ℕ) (hv : v < 64) (hw : w < 64) (hx : x < 64) (acc : ℕ) where
  b64_bytes-three :
      (cs : Bytes)
      → b64_bytes (get_or b64_digits v 0 ∷ get_or b64_digits w 0 ∷ get_or b64_digits x 0 ∷ cs) acc 0
        ≡ (b64_bytes cs (shifted (shifted (shifted acc v) w) x) 2
            >>= (λ o. ok ((w % 16 * 16 + x / 4) ∷ o))
            >>= λ o. ok ((v * 4 + w / 16) ∷ o))
  b64_bytes-three cs =
      let e : shifted (shifted (shifted acc v) w) x / 4 % 256 ≡ w % 16 * 16 + x / 4 = omega arith in
      rw (b64_bytes-two v w hv hw acc) (
        rw (b64_bytes-digit x cs (shifted (shifted acc v) w) 4 hx) (
          ap
            (λ t.
              b64_bytes cs (shifted (shifted (shifted acc v) w) x) 2 >>= (λ o. ok (t ∷ o)) >>= λ o.
              ok ((v * 4 + w / 16) ∷ o))
            e))

module _ (v w x y : ℕ) (hv : v < 64) (hw : w < 64) (hx : x < 64) (hy : y < 64) (acc : ℕ) where
  b64_bytes-four :
      (cs : Bytes)
      → b64_bytes
          (get_or b64_digits v 0
            ∷ get_or b64_digits w 0
            ∷ get_or b64_digits x 0
            ∷ get_or b64_digits y 0
            ∷ cs)
          acc
          0
        ≡ (b64_bytes cs (shifted (shifted (shifted (shifted acc v) w) x) y) 0 >>= λ o.
            ok ((v * 4 + w / 16) ∷ (w % 16 * 16 + x / 4) ∷ (x % 4 * 64 + y) ∷ o))
  b64_bytes-four cs =
      let last = shifted (shifted (shifted (shifted acc v) w) x) y in
      let e : last / 1 % 256 ≡ x % 4 * 64 + y = omega arith in
      rw (b64_bytes-three v w x hv hw hx acc) (
        rw (b64_bytes-digit y cs (shifted (shifted (shifted acc v) w) x) 2 hy)
          (rw e (bind_three (b64_bytes cs last 0) (v * 4 + w / 16) (w % 16 * 16 + x / 4) _)))

-- The characters before the padding.
unfoldable pub b64_body : Bytes → Bytes
b64_body (a ∷ b ∷ c ∷ bs) =
    get_or b64_digits (a / 4) 0
    ∷ get_or b64_digits (a % 4 * 16 + b / 16) 0
    ∷ get_or b64_digits (b % 16 * 4 + c / 64) 0
    ∷ get_or b64_digits (c % 64) 0
    ∷ b64_body bs
b64_body (a ∷ b ∷ []) =
    get_or b64_digits (a / 4) 0
    ∷ get_or b64_digits (a % 4 * 16 + b / 16) 0
    ∷ get_or b64_digits (b % 16 * 4) 0
    ∷ []
b64_body (a ∷ []) = get_or b64_digits (a / 4) 0 ∷ get_or b64_digits (a % 4 * 16) 0 ∷ []
b64_body [] = []

unfoldable pub b64_pad : Bytes → Bytes
b64_pad (a ∷ b ∷ c ∷ bs) = b64_pad bs
b64_pad (a ∷ b ∷ []) = b'=' ∷ []
b64_pad (a ∷ []) = b'=' ∷ b'=' ∷ []
b64_pad [] = []

-- Every byte string is read back from its body, whatever the accumulator held.
pub b64_bytes-body : (bs : Bytes) (acc : ℕ) → All IsByte bs → b64_bytes (b64_body bs) acc 0 ≡ ok bs
unfolding b64_body
b64_bytes-body (a ∷ b ∷ c ∷ bs) acc (ha, (hb, (hc, hbs))) =
    let v = a / 4 in
    let w = a % 4 * 16 + b / 16 in
    let x = b % 16 * 4 + c / 64 in
    let y = c % 64 in
    let last = shifted (shifted (shifted (shifted acc v) w) x) y in
    let ea : v * 4 + w / 16 ≡ a = omega arith in
    let eb : w % 16 * 16 + x / 4 ≡ b = omega arith in
    let ec : x % 4 * 64 + y ≡ c = omega arith in
    rw (b64_bytes-four v w x y (omega arith) (omega arith) (omega arith) (omega arith) acc)
      (rw (b64_bytes-body bs last hbs, ea, eb, ec))
b64_bytes-body (a ∷ b ∷ []) acc (ha, (hb, _)) =
    let v = a / 4 in
    let w = a % 4 * 16 + b / 16 in
    let x = b % 16 * 4 in
    let ea : v * 4 + w / 16 ≡ a = omega arith in
    let eb : w % 16 * 16 + x / 4 ≡ b = omega arith in
    rw (b64_bytes-three v w x (omega arith) (omega arith) (omega arith) acc)
      (unfold b64_bytes in rw (ea, eb))
b64_bytes-body (a ∷ []) acc (ha, _) =
    let v = a / 4 in
    let w = a % 4 * 16 in
    let ea : v * 4 + w / 16 ≡ a = omega arith in
    rw (b64_bytes-two v w (omega arith) (omega arith) acc) (unfold b64_bytes in rw ea)
b64_bytes-body [] acc h = unfold b64_bytes in refl

-- The encoder writes the body and the padding.
chunk_of :
    (a b c : ℕ)
    → IsByte a
    → IsByte b
    → IsByte c
    → bit_or (bit_or (a * 2 ^ 16) (b * 2 ^ 8)) c ≡ a * 2 ^ 16 + b * 2 ^ 8 + c
chunk_of a b c ha hb hc =
    let ab = pair_of a b ha hb in
    let e : a * 2 ^ 16 + b * 2 ^ 8 ≡ (a * 2 ^ 8 + b) * 2 ^ 8 = omega arith in
    rw (ab, e) (omega (arith, e, bit_or_join 8 16 (a * 2 ^ 8 + b) c (omega arith) hc))
  where
    pair_of :
        (a b : ℕ) → IsByte a → IsByte b → bit_or (a * 2 ^ 16) (b * 2 ^ 8) ≡ a * 2 ^ 16 + b * 2 ^ 8
    pair_of a b ha hb = bit_or_join 16 8 a (b * 2 ^ 8) ha (omega arith)

pub b64_chars-body : (bs : Bytes) → All IsByte bs → b64_chars bs ≡ b64_body bs ++ b64_pad bs
unfolding b64_chars b64_body b64_pad
b64_chars-body (a ∷ b ∷ c ∷ bs) (ha, (hb, (hc, hbs))) =
    let chunk = a * 2 ^ 16 + b * 2 ^ 8 + c in
    let e1 : chunk / 2 ^ 18 % 2 ^ 6 ≡ a / 4 = omega arith in
    let e2 : chunk / 2 ^ 12 % 2 ^ 6 ≡ a % 4 * 16 + b / 16 = omega arith in
    let e3 : chunk / 2 ^ 6 % 2 ^ 6 ≡ b % 16 * 4 + c / 64 = omega arith in
    let e4 : chunk / 2 ^ 0 % 2 ^ 6 ≡ c % 64 = omega arith in
    rw (chunk_of a b c ha hb hc) (
      rw
        (
          bit_and_mask 6 (chunk / 2 ^ 18),
          bit_and_mask 6 (chunk / 2 ^ 12),
          bit_and_mask 6 (chunk / 2 ^ 6),
          bit_and_mask 6 (chunk / 2 ^ 0),
        )
        (rw (e1, e2, e3, e4, b64_chars-body bs hbs)))
b64_chars-body (a ∷ b ∷ []) (ha, (hb, _)) =
    let chunk = a * 2 ^ 16 + b * 2 ^ 8 in
    let e1 : chunk / 2 ^ 18 % 2 ^ 6 ≡ a / 4 = omega arith in
    let e2 : chunk / 2 ^ 12 % 2 ^ 6 ≡ a % 4 * 16 + b / 16 = omega arith in
    let e3 : chunk / 2 ^ 6 % 2 ^ 6 ≡ b % 16 * 4 = omega arith in
    rw (bit_or_join 16 8 a (b * 2 ^ 8) ha (omega arith)) (
      rw
        (
          bit_and_mask 6 (chunk / 2 ^ 18),
          bit_and_mask 6 (chunk / 2 ^ 12),
          bit_and_mask 6 (chunk / 2 ^ 6),
        )
        (rw (e1, e2, e3)))
b64_chars-body (a ∷ []) (ha, _) =
    let chunk = a * 2 ^ 16 in
    let e1 : chunk / 2 ^ 18 % 2 ^ 6 ≡ a / 4 = omega arith in
    let e2 : chunk / 2 ^ 12 % 2 ^ 6 ≡ a % 4 * 16 = omega arith in
    rw (bit_and_mask 6 (chunk / 2 ^ 18), bit_and_mask 6 (chunk / 2 ^ 12)) (rw (e1, e2))
b64_chars-body [] h = refl
