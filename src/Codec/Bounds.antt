-- ===== src/Codec/Bounds.antt =====
-- src/codec.c: how much the Base64 decoder writes.
use thalovant_embedded_c.Base.{
  ℕ, ◌+◌, ◌-◌, ◌*◌, ◌/◌, ◌%◌, ◌^◌, ◌≤◌, ◌<◌, some, [], ◌∷◌, ◌≡◌, ◌≢◌, ◌⊎◌, inl, inr, bit_and,
  bit_or, Bytes, IsByte, length, All, int_max, leb, ◌==◌, ok, arith, Bool-cases, Option-cases,
  >>=-eq-ok, trim_end,
}
use thalovant_embedded_c.Base.Bits.{bit_and_mask}
use thalovant_embedded_c.Codec.{b64_value, b64_bytes, b64_extra, base64_decode}
use thalovant_embedded_c.Base.{length-trim_end}

-- A round of the loop that succeeds writes a byte if eight bits are there, and none else.
b64_round :
    (c : ℕ) (cs : Bytes) (acc bits : ℕ) (out : Bytes)
    → b64_bytes (c ∷ cs) acc bits ≡ ok out
    → (acc' : ℕ) × (((8 ≤ bits + 6)
          × ((x : ℕ) × (rest : Bytes) × (x < 256)
              × (out ≡ x ∷ rest)
              × (b64_bytes cs acc' (bits + 6 - 8) ≡ ok rest)))
        ⊎ ((bits + 6 < 8) × (b64_bytes cs acc' (bits + 6) ≡ ok out)))
unfolding b64_bytes
b64_round c cs acc bits out h = elim (Option-cases (b64_value c)) [
  | inl e ↦ absurd (let g = rw e at h in cc)
  | inr (v, e) ↦
      let acc' = bit_or (acc * 2 ^ 6 % 2 ^ 32) v in
      let g = rw e at h in
      (
        acc',
        elim (Bool-cases (leb 8 (bits + 6))) [
          | inl full ↦
              let (rest, r, o) = >>=-eq-ok (b64_bytes cs acc' (bits + 6 - 8)) _ (rw full at g) in
              inl (
                ground arith,
                (
                  bit_and (acc' / 2 ^ (bits + 6 - 8)) 255,
                  rest,
                  omega (arith, bit_and_mask 8 (acc' / 2 ^ (bits + 6 - 8))),
                  ground arith,
                  r,
                ),
              )
          | inr less ↦ inr (ground arith, rw less at g)
        ],
      )
]

length-b64_bytes :
    (cs : Bytes) (acc bits : ℕ) (out : Bytes)
    → bits < 8
    → b64_bytes cs acc bits ≡ ok out
    → (length out ≡ (6 * length cs + bits) / 8) × All IsByte out
length-b64_bytes [] acc bits out small h =
    let e : [] ≡ out = unfold b64_bytes in ground arith in rw (← e) (omega arith)
length-b64_bytes (c ∷ cs) acc bits out small h =
    let (acc', round) = b64_round c cs acc bits out h in
    elim round [
      | inl (full, (x, rest, byte, o, run)) ↦
          let (len, bytes) = length-b64_bytes cs acc' (bits + 6 - 8) rest (omega arith) run in
          rw o (omega arith, (byte, bytes))
      | inr (less, run) ↦
          let (len, bytes) = length-b64_bytes cs acc' (bits + 6) out (omega arith) run in
          (omega arith, bytes)
    ]

-- The decoder writes bytes alone, and exactly three quarters as many, rounded down, as the text has
-- characters before its padding; that is within the buffer and within an int.
pub base64_decode_bounds :
    (s : Bytes) (size : ℕ) (out : Bytes)
    → base64_decode (some s) (some size) ≡ ok out
    → (length out ≡ 3 * length (trim_end (λ c. c == b'=') s) / 4)
      × (length out ≤ size)
      × (length out ≤ int_max)
      × (4 * length out ≤ 3 * length s)
      × All IsByte out
base64_decode_bounds s size out h =
    let body = trim_end (λ c. c == b'=') s in
    let (one, size_fits, int_fits, run) = unpack in
    let (len, bytes) = length-b64_bytes body 0 0 out (omega arith) run in
    let shorter = length-trim_end (λ c. c == b'=') s in
    let size_is : 6 * length body / 8 ≡ length body / 4 * 3 + b64_extra (length body % 4) =
      ground arith in
    (omega arith, omega arith, omega arith, omega arith, bytes)
  where
    unpack :
        (length (trim_end (λ c. c == b'=') s) % 4 ≢ 1)
        × (length (trim_end (λ c. c == b'=') s) / 4 * 3
              + b64_extra (length (trim_end (λ c. c == b'=') s) % 4)
            ≤ size)
        × (length (trim_end (λ c. c == b'=') s) / 4 * 3
              + b64_extra (length (trim_end (λ c. c == b'=') s) % 4)
            ≤ int_max)
        × (b64_bytes (trim_end (λ c. c == b'=') s) 0 0 ≡ ok out)
    unpack = unfold base64_decode in (ground arith, ground arith, ground arith, ground arith)
