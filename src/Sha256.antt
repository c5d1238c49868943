-- ===== src/Sha256.antt =====
-- src/sha256.c: SHA-256 in a stream. A uint32_t is a number below 2^32.
use thalovant_embedded_c.Base.{
  ℕ, zero, suc, ◌+◌, ◌-◌, ◌*◌, ◌/◌, ◌%◌, ◌^◌, min, List, [], ◌∷◌, ◌++◌, map, bit_and, bit_or,
  bit_xor, Bytes, length, take, drop, get_or, ◌==◌, if◌then◌else◌,
}
pub mod Lengths
pub mod Streaming
mod Examples

abbrev pub sha256_k : List ℕ
sha256_k =
    0x428a2f98 ∷ 0x71374491 ∷ 0xb5c0fbcf ∷ 0xe9b5dba5 ∷ 0x3956c25b ∷ 0x59f111f1 ∷ 0x923f82a4
    ∷ 0xab1c5ed5 ∷ 0xd807aa98 ∷ 0x12835b01 ∷ 0x243185be ∷ 0x550c7dc3 ∷ 0x72be5d74 ∷ 0x80deb1fe
    ∷ 0x9bdc06a7 ∷ 0xc19bf174 ∷ 0xe49b69c1 ∷ 0xefbe4786 ∷ 0x0fc19dc6 ∷ 0x240ca1cc ∷ 0x2de92c6f
    ∷ 0x4a7484aa ∷ 0x5cb0a9dc ∷ 0x76f988da ∷ 0x983e5152 ∷ 0xa831c66d ∷ 0xb00327c8 ∷ 0xbf597fc7
    ∷ 0xc6e00bf3 ∷ 0xd5a79147 ∷ 0x06ca6351 ∷ 0x14292967 ∷ 0x27b70a85 ∷ 0x2e1b2138 ∷ 0x4d2c6dfc
    ∷ 0x53380d13 ∷ 0x650a7354 ∷ 0x766a0abb ∷ 0x81c2c92e ∷ 0x92722c85 ∷ 0xa2bfe8a1 ∷ 0xa81a664b
    ∷ 0xc24b8b70 ∷ 0xc76c51a3 ∷ 0xd192e819 ∷ 0xd6990624 ∷ 0xf40e3585 ∷ 0x106aa070 ∷ 0x19a4c116
    ∷ 0x1e376c08 ∷ 0x2748774c ∷ 0x34b0bcb5 ∷ 0x391c0cb3 ∷ 0x4ed8aa4a ∷ 0x5b9cca4f ∷ 0x682e6ff3
    ∷ 0x748f82ee ∷ 0x78a5636f ∷ 0x84c87814 ∷ 0x8cc70208 ∷ 0x90befffa ∷ 0xa4506ceb ∷ 0xbef9a3f7
    ∷ 0xc67178f2 ∷ []

unfoldable pub rotr : ℕ → ℕ → ℕ
rotr x n = bit_or (x / 2 ^ n) (x * 2 ^ (32 - n) % 2 ^ 32)

-- w[0] to w[15], by the words left.
unfoldable pub block_words : ℕ → ℕ → Bytes → List ℕ
block_words zero i block = []
block_words (suc left) i block =
    bit_or
      (bit_or
        (bit_or (get_or block (i * 4) 0 * 2 ^ 24 % 2 ^ 32)
          (get_or block (i * 4 + 1) 0 * 2 ^ 16 % 2 ^ 32))
        (get_or block (i * 4 + 2) 0 * 2 ^ 8 % 2 ^ 32))
      (get_or block (i * 4 + 3) 0)
    ∷ block_words left (i + 1) block

-- w[i] and the words behind it, from the ones before.
unfoldable pub extend_words : ℕ → ℕ → List ℕ → List ℕ
extend_words zero i w = w
extend_words (suc left) i w =
    let early = get_or w (i - 15) 0 in
    let late = get_or w (i - 2) 0 in
    let s0 = bit_xor (bit_xor (rotr early 7) (rotr early 18)) (early / 2 ^ 3) in
    let s1 = bit_xor (bit_xor (rotr late 17) (rotr late 19)) (late / 2 ^ 10) in
    extend_words left (i + 1)
      (w ++ (get_or w (i - 16) 0 + s0 + get_or w (i - 7) 0 + s1) % 2 ^ 32 ∷ [])

-- The 64 rounds over the variables `a` to `h`.
unfoldable pub sha256_rounds : ℕ → ℕ → List ℕ → (a b c d e f g h : ℕ) → List ℕ
sha256_rounds zero i w a b c d e f g h = a ∷ b ∷ c ∷ d ∷ e ∷ f ∷ g ∷ h ∷ []
sha256_rounds (suc left) i w a b c d e f g h =
    let s1 = bit_xor (bit_xor (rotr e 6) (rotr e 11)) (rotr e 25) in
    let ch = bit_xor (bit_and e f) (bit_and (2 ^ 32 - 1 - e) g) in
    let t1 = (h + s1 + ch + get_or sha256_k i 0 + get_or w i 0) % 2 ^ 32 in
    let s0 = bit_xor (bit_xor (rotr a 2) (rotr a 13)) (rotr a 22) in
    let maj = bit_xor (bit_xor (bit_and a b) (bit_and a c)) (bit_and b c) in
    let t2 = (s0 + maj) % 2 ^ 32 in
    sha256_rounds left (i + 1) w ((t1 + t2) % 2 ^ 32) a b c ((d + t1) % 2 ^ 32) e f g

unfoldable pub add_words : List ℕ → List ℕ → List ℕ
add_words [] ys = []
add_words (x ∷ xs) [] = x ∷ xs
add_words (x ∷ xs) (y ∷ ys) = (x + y) % 2 ^ 32 ∷ add_words xs ys

unfoldable pub sha256_block : List ℕ → Bytes → List ℕ
sha256_block state block =
    let w = extend_words 48 16 (block_words 16 0 block) in
    let var : ℕ → ℕ = λ i. get_or state i 0 in
    add_words state
      (sha256_rounds 64 0 w (var 0) (var 1) (var 2) (var 3) (var 4) (var 5) (var 6) (var 7))

-- The context: `buffer` holds the `buffered` bytes of the source's buffer.
pub record Hash : Type 0 where
  pub state : List ℕ
  pub buffer : Bytes

pub record Sha256Ctx : Type 0 where
  pub hash : Hash
  pub bits : ℕ

unfoldable pub sha256_init : Sha256Ctx
sha256_init = record {
  hash = record {
    state =
        0x6a09e667 ∷ 0xbb67ae85 ∷ 0x3c6ef372 ∷ 0xa54ff53a ∷ 0x510e527f ∷ 0x9b05688c ∷ 0x1f83d9ab
        ∷ 0x5be0cd19 ∷ [];
    buffer = [];
  };
  bits = 0;
}

-- if (ctx->buffered == 64) { ... }
unfoldable pub flush : List ℕ → Bytes → Hash
flush state buffer =
    if length buffer == 64
    then record { state = sha256_block state buffer; buffer = [] }
    else record { state = state; buffer = buffer }

-- The loop of sha256_update, on fuel: every round takes a byte at least.
unfoldable pub absorb : ℕ → Hash → Bytes → Hash
absorb zero hash input = hash
absorb (suc fuel) hash [] = hash
absorb (suc fuel) hash (x ∷ rest) =
    let input = x ∷ rest in
    let n = min (64 - length hash.buffer) (length input) in
    absorb fuel (flush hash.state (hash.buffer ++ take n input)) (drop n input)

unfoldable pub sha256_update : Sha256Ctx → Bytes → Sha256Ctx
sha256_update ctx input = record {
  hash = absorb (length input) ctx.hash input;
  bits = (ctx.bits + length input * 8) % 2 ^ 64;
}

-- while (ctx->buffered != 56), on fuel.
unfoldable pub fill_zeros : ℕ → Sha256Ctx → Sha256Ctx
fill_zeros zero ctx = ctx
fill_zeros (suc fuel) ctx =
    let filled = fill_zeros fuel (sha256_update ctx (0 ∷ [])) in
    if length ctx.hash.buffer == 56 then ctx else filled

unfoldable pub length_be : ℕ → Bytes
length_be bits = map (λ i. bits / 2 ^ (56 - i * 8) % 256) (0 ∷ 1 ∷ 2 ∷ 3 ∷ 4 ∷ 5 ∷ 6 ∷ 7 ∷ [])

unfoldable pub state_bytes : List ℕ → Bytes
state_bytes [] = []
state_bytes (v ∷ vs) =
    v / 2 ^ 24 % 256 ∷ v / 2 ^ 16 % 256 ∷ v / 2 ^ 8 % 256 ∷ v % 256 ∷ state_bytes vs

unfoldable pub sha256_final : Sha256Ctx → Bytes
sha256_final ctx =
    let padded = fill_zeros 64 (sha256_update ctx (0x80 ∷ [])) in
    state_bytes (sha256_block padded.hash.state (padded.hash.buffer ++ length_be ctx.bits))

unfoldable pub sha256 : Bytes → Bytes
sha256 input = sha256_final (sha256_update sha256_init input)
