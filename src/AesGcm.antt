-- ===== src/AesGcm.antt =====
-- src/aes_gcm.c: AES-128, AES-256 and GCM. A block, a key and the round keys are lists of bytes; the
-- exclusive or of two bytes is a byte, so no cast stands at it.
pub mod Cipher
pub mod Gcm
pub mod Lengths
pub mod RoundTrip
pub mod Sealing
mod Examples
use thalovant_embedded_c.Base.{
  ℕ, zero, suc, ◌+◌, ◌-◌, ◌*◌, ◌/◌, ◌%◌, ◌^◌, [], ◌∷◌, ◌++◌, map, bit_and, bit_or, bit_xor, Bytes,
  take, drop, get_or, ◌==◌, if◌then◌else◌,
}

unfoldable pub sbox_table : Bytes
sbox_table =
    0x63 ∷ 0x7c ∷ 0x77 ∷ 0x7b ∷ 0xf2 ∷ 0x6b ∷ 0x6f ∷ 0xc5 ∷ 0x30 ∷ 0x01 ∷ 0x67 ∷ 0x2b ∷ 0xfe ∷ 0xd7
    ∷ 0xab ∷ 0x76 ∷ 0xca ∷ 0x82 ∷ 0xc9 ∷ 0x7d ∷ 0xfa ∷ 0x59 ∷ 0x47 ∷ 0xf0 ∷ 0xad ∷ 0xd4 ∷ 0xa2
    ∷ 0xaf ∷ 0x9c ∷ 0xa4 ∷ 0x72 ∷ 0xc0 ∷ 0xb7 ∷ 0xfd ∷ 0x93 ∷ 0x26 ∷ 0x36 ∷ 0x3f ∷ 0xf7 ∷ 0xcc
    ∷ 0x34 ∷ 0xa5 ∷ 0xe5 ∷ 0xf1 ∷ 0x71 ∷ 0xd8 ∷ 0x31 ∷ 0x15 ∷ 0x04 ∷ 0xc7 ∷ 0x23 ∷ 0xc3 ∷ 0x18
    ∷ 0x96 ∷ 0x05 ∷ 0x9a ∷ 0x07 ∷ 0x12 ∷ 0x80 ∷ 0xe2 ∷ 0xeb ∷ 0x27 ∷ 0xb2 ∷ 0x75 ∷ 0x09 ∷ 0x83
    ∷ 0x2c ∷ 0x1a ∷ 0x1b ∷ 0x6e ∷ 0x5a ∷ 0xa0 ∷ 0x52 ∷ 0x3b ∷ 0xd6 ∷ 0xb3 ∷ 0x29 ∷ 0xe3 ∷ 0x2f
    ∷ 0x84 ∷ 0x53 ∷ 0xd1 ∷ 0x00 ∷ 0xed ∷ 0x20 ∷ 0xfc ∷ 0xb1 ∷ 0x5b ∷ 0x6a ∷ 0xcb ∷ 0xbe ∷ 0x39
    ∷ 0x4a ∷ 0x4c ∷ 0x58 ∷ 0xcf ∷ 0xd0 ∷ 0xef ∷ 0xaa ∷ 0xfb ∷ 0x43 ∷ 0x4d ∷ 0x33 ∷ 0x85 ∷ 0x45
    ∷ 0xf9 ∷ 0x02 ∷ 0x7f ∷ 0x50 ∷ 0x3c ∷ 0x9f ∷ 0xa8 ∷ 0x51 ∷ 0xa3 ∷ 0x40 ∷ 0x8f ∷ 0x92 ∷ 0x9d
    ∷ 0x38 ∷ 0xf5 ∷ 0xbc ∷ 0xb6 ∷ 0xda ∷ 0x21 ∷ 0x10 ∷ 0xff ∷ 0xf3 ∷ 0xd2 ∷ 0xcd ∷ 0x0c ∷ 0x13
    ∷ 0xec ∷ 0x5f ∷ 0x97 ∷ 0x44 ∷ 0x17 ∷ 0xc4 ∷ 0xa7 ∷ 0x7e ∷ 0x3d ∷ 0x64 ∷ 0x5d ∷ 0x19 ∷ 0x73
    ∷ 0x60 ∷ 0x81 ∷ 0x4f ∷ 0xdc ∷ 0x22 ∷ 0x2a ∷ 0x90 ∷ 0x88 ∷ 0x46 ∷ 0xee ∷ 0xb8 ∷ 0x14 ∷ 0xde
    ∷ 0x5e ∷ 0x0b ∷ 0xdb ∷ 0xe0 ∷ 0x32 ∷ 0x3a ∷ 0x0a ∷ 0x49 ∷ 0x06 ∷ 0x24 ∷ 0x5c ∷ 0xc2 ∷ 0xd3
    ∷ 0xac ∷ 0x62 ∷ 0x91 ∷ 0x95 ∷ 0xe4 ∷ 0x79 ∷ 0xe7 ∷ 0xc8 ∷ 0x37 ∷ 0x6d ∷ 0x8d ∷ 0xd5 ∷ 0x4e
    ∷ 0xa9 ∷ 0x6c ∷ 0x56 ∷ 0xf4 ∷ 0xea ∷ 0x65 ∷ 0x7a ∷ 0xae ∷ 0x08 ∷ 0xba ∷ 0x78 ∷ 0x25 ∷ 0x2e
    ∷ 0x1c ∷ 0xa6 ∷ 0xb4 ∷ 0xc6 ∷ 0xe8 ∷ 0xdd ∷ 0x74 ∷ 0x1f ∷ 0x4b ∷ 0xbd ∷ 0x8b ∷ 0x8a ∷ 0x70
    ∷ 0x3e ∷ 0xb5 ∷ 0x66 ∷ 0x48 ∷ 0x03 ∷ 0xf6 ∷ 0x0e ∷ 0x61 ∷ 0x35 ∷ 0x57 ∷ 0xb9 ∷ 0x86 ∷ 0xc1
    ∷ 0x1d ∷ 0x9e ∷ 0xe1 ∷ 0xf8 ∷ 0x98 ∷ 0x11 ∷ 0x69 ∷ 0xd9 ∷ 0x8e ∷ 0x94 ∷ 0x9b ∷ 0x1e ∷ 0x87
    ∷ 0xe9 ∷ 0xce ∷ 0x55 ∷ 0x28 ∷ 0xdf ∷ 0x8c ∷ 0xa1 ∷ 0x89 ∷ 0x0d ∷ 0xbf ∷ 0xe6 ∷ 0x42 ∷ 0x68
    ∷ 0x41 ∷ 0x99 ∷ 0x2d ∷ 0x0f ∷ 0xb0 ∷ 0x54 ∷ 0xbb ∷ 0x16 ∷ []

unfoldable pub sbox : ℕ → ℕ
sbox x = get_or sbox_table x 0

abbrev pub rcon_table : Bytes
rcon_table = 0x01 ∷ 0x02 ∷ 0x04 ∷ 0x08 ∷ 0x10 ∷ 0x20 ∷ 0x40 ∷ 0x80 ∷ 0x1b ∷ 0x36 ∷ []

-- out[i] = a[i] ^ b[i], as far as both go.
unfoldable pub zip_xor : Bytes → Bytes → Bytes
zip_xor [] ys = []
zip_xor (x ∷ xs) [] = []
zip_xor (x ∷ xs) (y ∷ ys) = bit_xor x y ∷ zip_xor xs ys

-- The word that stands before position `i`.
abbrev word_before : ℕ → Bytes → Bytes
word_before i rk = take 4 (drop (i - 4) rk)

-- The mixed word: every fourth one is rotated, substituted and given its round constant.
unfoldable pub schedule128 : ℕ → ℕ → Bytes → Bytes
schedule128 i rcon rk =
    let t0 = get_or rk (i - 4) 0 in
    let t1 = get_or rk (i - 3) 0 in
    let t2 = get_or rk (i - 2) 0 in
    let t3 = get_or rk (i - 1) 0 in
    if i % 16 == 0
    then bit_xor (sbox t1) (get_or rcon_table rcon 0) ∷ sbox t2 ∷ sbox t3 ∷ sbox t0 ∷ []
    else t0 ∷ t1 ∷ t2 ∷ t3 ∷ []

-- rk[i + j] = rk[i - 16 + j] ^ t[j]
unfoldable pub next_word : ℕ → ℕ → Bytes → Bytes → Bytes
next_word back i rk t =
    bit_xor (get_or rk (i - back) 0) (get_or t 0 0)
    ∷ bit_xor (get_or rk (i - back + 1) 0) (get_or t 1 0)
    ∷ bit_xor (get_or rk (i - back + 2) 0) (get_or t 2 0)
    ∷ bit_xor (get_or rk (i - back + 3) 0) (get_or t 3 0)
    ∷ []

-- The loop of the key schedule, by the rounds left.
unfoldable pub expand128 : ℕ → ℕ → ℕ → Bytes → Bytes
expand128 zero i rcon rk = rk
expand128 (suc rounds) i rcon rk =
    expand128 rounds (i + 4) (if i % 16 == 0 then rcon + 1 else rcon)
      (rk ++ next_word 16 i rk (schedule128 i rcon rk))

unfoldable pub aes128_init : Bytes → Bytes
aes128_init key = expand128 40 16 0 (take 16 key)

unfoldable pub xtime : ℕ → ℕ
xtime x = bit_xor (x * 2 % 256) (x / 2 ^ 7 * 0x1b % 256)

-- The three row rotations, as the position that each byte comes from.
abbrev pub row_shifts : Bytes
row_shifts = 0 ∷ 5 ∷ 10 ∷ 15 ∷ 4 ∷ 9 ∷ 14 ∷ 3 ∷ 8 ∷ 13 ∷ 2 ∷ 7 ∷ 12 ∷ 1 ∷ 6 ∷ 11 ∷ []

unfoldable pub shift_rows : Bytes → Bytes
shift_rows s = map (λ i. get_or s i 0) row_shifts

-- One column of the state, and all of them.
unfoldable pub mix_columns : Bytes → Bytes
unfolding xtime
mix_columns (a0 ∷ a1 ∷ a2 ∷ a3 ∷ rest) =
    let every = bit_xor (bit_xor (bit_xor a0 a1) a2) a3 in
    bit_xor a0 (bit_xor every (xtime (bit_xor a0 a1)))
    ∷ bit_xor a1 (bit_xor every (xtime (bit_xor a1 a2)))
    ∷ bit_xor a2 (bit_xor every (xtime (bit_xor a2 a3)))
    ∷ bit_xor a3 (bit_xor every (xtime (bit_xor a3 a0)))
    ∷ mix_columns rest
mix_columns rest = rest

-- Rounds `round` to `last`, by the rounds left; the last one mixes no columns.
unfoldable pub cipher_rounds : (ℕ → ℕ) → Bytes → ℕ → ℕ → ℕ → Bytes → Bytes
cipher_rounds sub rk last zero round s = s
cipher_rounds sub rk last (suc left) round s =
    let shifted = shift_rows (map sub s) in
    let mixed = if round == last then shifted else mix_columns shifted in
    cipher_rounds sub rk last left (round + 1) (zip_xor mixed (take 16 (drop (round * 16) rk)))

unfoldable pub aes128_encrypt_block : Bytes → Bytes → Bytes
aes128_encrypt_block rk block = cipher_rounds sbox rk 10 10 1 (zip_xor (take 16 block) (take 16 rk))

-- The eight rounds of a product in the field of AES; the mask is 0xff where the bit is set.
unfoldable pub aes_mul_loop : ℕ → ℕ → ℕ → ℕ → ℕ
aes_mul_loop zero r a b = r
aes_mul_loop (suc left) r a b =
    aes_mul_loop left (bit_xor r (bit_and a (b % 2 * 255))) (xtime a) (b / 2)

unfoldable pub aes_mul : ℕ → ℕ → ℕ
aes_mul a b = aes_mul_loop 8 0 a b

unfoldable pub aes_power : ℕ → ℕ → ℕ → ℕ → ℕ
aes_power zero i y p = y
aes_power (suc left) i y p =
    aes_power left (i + 1) (if 254 / 2 ^ i % 2 == 1 then aes_mul y p else y) (aes_mul p p)

-- (y << n) | (y >> (8 - n)), the low byte of it.
abbrev rotl8 : ℕ → ℕ → ℕ
rotl8 y n = bit_or (y * 2 ^ n % 256) (y / 2 ^ (8 - n))

unfoldable pub aes_sub : ℕ → ℕ
aes_sub x =
    let y = aes_power 8 0 1 x in
    bit_xor
      (bit_xor (bit_xor (bit_xor (bit_xor y (rotl8 y 1)) (rotl8 y 2)) (rotl8 y 3)) (rotl8 y 4)) 0x63

unfoldable pub schedule256 : ℕ → ℕ → Bytes → Bytes
schedule256 i rcon rk =
    let t = take 4 (drop (i - 4) rk) in
    if i % 32 == 0
    then bit_xor (aes_sub (get_or t 1 0)) (get_or rcon_table rcon 0)
      ∷ aes_sub (get_or t 2 0)
      ∷ aes_sub (get_or t 3 0)
      ∷ aes_sub (get_or t 0 0)
      ∷ []
    else if i % 32 == 16
    then map aes_sub t
    else t

unfoldable pub expand256 : ℕ → ℕ → ℕ → Bytes → Bytes
expand256 zero i rcon rk = rk
expand256 (suc rounds) i rcon rk =
    expand256 rounds (i + 4) (if i % 32 == 0 then rcon + 1 else rcon)
      (rk ++ next_word 32 i rk (schedule256 i rcon rk))

unfoldable pub aes256_init : Bytes → Bytes
aes256_init key = expand256 52 32 0 (take 32 key)

unfoldable pub aes256_encrypt_block : Bytes → Bytes → Bytes
aes256_encrypt_block rk block =
    cipher_rounds aes_sub rk 14 14 1 (zip_xor (take 16 block) (take 16 rk))
