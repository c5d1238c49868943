-- ===== src/Sha256/Streaming.antt =====
-- src/sha256.c, lines 61 to 124: the stream against the padded message of FIPS 180-4.
use thalovant_embedded_c.Base.{
  ℕ, zero, suc, ◌+◌, ◌-◌, ◌*◌, ◌/◌, ◌%◌, ◌^◌, ◌≤◌, ◌<◌, min, List, [], ◌∷◌, ◌++◌, append_assoc, ◌≡◌,
  refl, sym, ap, ◌∙◌, inl, inr, Bytes, length, length-append, length-take, length-drop,
  length-replicate, take, drop, take-append-drop, replicate, ◌==◌, arith, Bool-cases,
}
use thalovant_embedded_c.Sha256.{
  Hash, Sha256Ctx, sha256_block, sha256_init, flush, absorb, sha256_update, fill_zeros, length_be,
  state_bytes, sha256_final, sha256,
}

-- One byte at a time.
puts : Hash → Bytes → Hash
puts hash [] = hash
puts hash (x ∷ input) = puts (flush hash.state (hash.buffer ++ x ∷ [])) input

puts-append : (hash : Hash) (a b : Bytes) → puts hash (a ++ b) ≡ puts (puts hash a) b
unfolding puts
puts-append hash [] b = refl
puts-append hash (x ∷ a) b = puts-append (flush hash.state (hash.buffer ++ x ∷ [])) a b

abbrev HasRoom : Hash → Type 0
HasRoom hash = length hash.buffer < 64

flush-HasRoom : (st : List ℕ) (buf : Bytes) → length buf ≤ 64 → HasRoom (flush st buf)
unfolding flush
flush-HasRoom st buf h = ground arith

flush-open :
    (st : List ℕ) (buf : Bytes)
    → length buf < 64
    → flush st buf ≡ record { state = st; buffer = buf }
unfolding flush
flush-open st buf h = ground arith

-- A piece that the buffer has room for goes in at once.
puts-piece :
    (st : List ℕ) (buf : Bytes) (x : ℕ) (piece : Bytes)
    → length buf + length (x ∷ piece) ≤ 64
    → puts (record { state = st; buffer = buf }) (x ∷ piece) ≡ flush st (buf ++ x ∷ piece)
unfolding puts
puts-piece st buf x [] h = refl
puts-piece st buf x (y ∷ piece) h =
    let size = length-append buf (x ∷ []) in
    let opened = flush-open st (buf ++ x ∷ []) (omega arith) in
    let rest = puts-piece st (buf ++ x ∷ []) y piece (omega arith) in
    let joined = append_assoc buf (x ∷ []) (y ∷ piece) in rw opened (rest ∙ ap (flush st) joined)

puts-cut :
    (n : ℕ) (hash : Hash) (input : Bytes)
    → 0 < n
    → n ≤ length input
    → length hash.buffer + n ≤ 64
    → puts hash input ≡ puts (flush hash.state (hash.buffer ++ take n input)) (drop n input)
puts-cut zero hash input h k b = absurd (omega arith)
puts-cut (suc n) hash [] h k b = absurd (omega arith)
puts-cut (suc n) hash (x ∷ input) h k b =
    let piece = take n input in
    let rest = drop n input in
    let whole = take-append-drop n input in
    let size = length-take n input in
    let cut = ap (λ t. puts hash (x ∷ t)) (sym whole) in
    let parts = puts-append hash (x ∷ piece) rest in
    let front = puts-piece hash.state hash.buffer x piece (omega arith) in
    cut ∙ parts ∙ ap (λ g. puts g rest) front

absorb-puts :
    (fuel : ℕ) (hash : Hash) (input : Bytes)
    → HasRoom hash
    → length input ≤ fuel
    → absorb fuel hash input ≡ puts hash input
unfolding absorb puts
absorb-puts zero hash [] h k = refl
absorb-puts zero hash (x ∷ input) h k = absurd (omega arith)
absorb-puts (suc fuel) hash [] h k = refl
absorb-puts (suc fuel) hash (x ∷ input) h k =
    let n = min (64 - length hash.buffer) (length (x ∷ input)) in
    let piece = take n (x ∷ input) in
    let size = length-append hash.buffer piece in
    let taken = length-take n (x ∷ input) in
    let left = length-drop n (x ∷ input) in
    let hash' = flush hash.state (hash.buffer ++ piece) in
    let room = flush-HasRoom hash.state (hash.buffer ++ piece) (omega arith) in
    absorb-puts fuel hash' (drop n (x ∷ input)) room (omega arith)
    ∙ sym (puts-cut n hash (x ∷ input) (omega arith) (omega arith) (omega arith))

puts-HasRoom : (hash : Hash) (input : Bytes) → HasRoom hash → HasRoom (puts hash input)
unfolding puts
puts-HasRoom hash [] h = h
puts-HasRoom hash (x ∷ input) h =
    let size = length-append hash.buffer (x ∷ []) in
    puts-HasRoom (flush hash.state (hash.buffer ++ x ∷ [])) input
      (flush-HasRoom hash.state (hash.buffer ++ x ∷ []) (omega arith))

-- Whole blocks, one after the other.
pub blocks : ℕ → List ℕ → Bytes → List ℕ
blocks zero st text = st
blocks (suc n) st text = blocks n (sha256_block st (take 64 text)) (drop 64 text)

flush-full :
    (st : List ℕ) (buf : Bytes)
    → length buf ≡ 64
    → flush st buf ≡ record { state = sha256_block st buf; buffer = [] }
unfolding flush
flush-full st buf h = ground arith

puts-blocks :
    (n : ℕ) (st : List ℕ) (text : Bytes)
    → length text ≡ 64 * n
    → puts (record { state = st; buffer = [] }) text
      ≡ record { state = blocks n st text; buffer = [] }
unfolding blocks puts
puts-blocks zero st [] h = refl
puts-blocks zero st (x ∷ text) h = absurd (omega arith)
puts-blocks (suc n) st text h =
    let taken = length-take 64 text in
    let left = length-drop 64 text in
    let full = flush-full st (take 64 text) (omega arith) in
    let rest = puts-blocks n (sha256_block st (take 64 text)) (drop 64 text) (omega arith) in
    puts-cut 64 (record { state = st; buffer = [] }) text (omega arith) (omega arith) (omega arith)
    ∙ ap (λ g. puts g (drop 64 text)) full
    ∙ rest

-- The number of bytes in the buffer is the number of bytes absorbed, modulo 64.
puts-buffered :
    (hash : Hash) (input : Bytes)
    → HasRoom hash
    → length (puts hash input).buffer ≡ (length hash.buffer + length input) % 64
unfolding puts flush
puts-buffered hash [] h = omega arith
puts-buffered hash (x ∷ input) h =
    let size = length-append hash.buffer (x ∷ []) in
    let hash' = flush hash.state (hash.buffer ++ x ∷ []) in
    let room = flush-HasRoom hash.state (hash.buffer ++ x ∷ []) (omega arith) in
    ground (arith, puts-buffered hash' input room)

-- A context whose buffer has room for a byte, as every context that the functions make.
abbrev pub IsReady : Sha256Ctx → Type 0
IsReady ctx = HasRoom ctx.hash

-- Two calls of `sha256_update` on a context whose buffer is not full do what one call on the joined
-- input does, and the buffer is not full behind it.
pub sha256_update-append :
    (ctx : Sha256Ctx) (a b : Bytes)
    → IsReady ctx
    → (sha256_update (sha256_update ctx a) b ≡ sha256_update ctx (a ++ b))
      × IsReady (sha256_update ctx a)
unfolding sha256_update
sha256_update-append ctx a b h =
    let first = absorb-puts (length a) ctx.hash a h (omega arith) in
    let room = puts-HasRoom ctx.hash a h in
    let second = absorb-puts (length b) (puts ctx.hash a) b room (omega arith) in
    let both = absorb-puts (length (a ++ b)) ctx.hash (a ++ b) h (omega arith) in
    let joined = puts-append ctx.hash a b in
    let size = length-append a b in
    let hashes : absorb (length b) (absorb (length a) ctx.hash a) b
        ≡ absorb (length (a ++ b)) ctx.hash (a ++ b) =
      rw first (second ∙ sym joined ∙ sym both) in
    let bits : ((ctx.bits + length a * 8) % 2 ^ 64 + length b * 8) % 2 ^ 64
        ≡ (ctx.bits + length (a ++ b) * 8) % 2 ^ 64 =
      omega arith in
    (rw (hashes, bits) refl, rw first room)

abbrev zeros_for : Hash → ℕ
zeros_for hash = (120 - length hash.buffer) % 64

update_byte :
    (ctx : Sha256Ctx) (v : ℕ)
    → IsReady ctx
    → (sha256_update ctx (v ∷ [])).hash ≡ puts ctx.hash (v ∷ [])
unfolding sha256_update
update_byte ctx v h = absorb-puts 1 ctx.hash (v ∷ []) h (omega arith)

fill_zeros-eq :
    (fuel : ℕ) (ctx : Sha256Ctx)
    → IsReady ctx
    → zeros_for ctx.hash ≤ fuel
    → (fill_zeros fuel ctx).hash ≡ puts ctx.hash (replicate (zeros_for ctx.hash) 0)
unfolding fill_zeros puts
fill_zeros-eq zero ctx h k =
    let none_left : zeros_for ctx.hash ≡ 0 = omega arith in rw none_left refl
fill_zeros-eq (suc fuel) ctx h k = elim (Bool-cases (length ctx.hash.buffer == 56)) [
  | inl e ↦ let none_left : zeros_for ctx.hash ≡ 0 = ground arith in rw (e, none_left) refl
  | inr e ↦
      let here : (length ctx.hash.buffer ≡ 56) → ⊥ = ground arith in
      let next = sha256_update ctx (0 ∷ []) in
      let hash' = puts ctx.hash (0 ∷ []) in
      let one = update_byte ctx 0 h in
      let room = puts-HasRoom ctx.hash (0 ∷ []) h in
      let count = puts-buffered ctx.hash (0 ∷ []) h in
      let fewer : zeros_for ctx.hash ≡ suc (zeros_for hash') = omega arith in
      let rest = fill_zeros-eq fuel next (rw one room) (rw one (omega arith)) in
      rw (e, fewer) (rest ∙ ap (λ g. puts g (replicate (zeros_for g) 0)) one)
]

padding : (hash : Hash) → Bytes
padding hash = 0x80 ∷ replicate ((119 - length hash.buffer) % 64) 0

length-padding : (hash : Hash) → length (padding hash) ≡ suc ((119 - length hash.buffer) % 64)
unfolding padding
length-padding hash = ap suc (length-replicate ((119 - length hash.buffer) % 64) 0)

padded_hash :
    (ctx : Sha256Ctx)
    → IsReady ctx
    → ((fill_zeros 64 (sha256_update ctx (0x80 ∷ []))).hash ≡ puts ctx.hash (padding ctx.hash))
      × (length (puts ctx.hash (padding ctx.hash)).buffer ≡ 56)
unfolding padding
padded_hash ctx h =
    let one = update_byte ctx 0x80 h in
    let hash' = puts ctx.hash (0x80 ∷ []) in
    let room = puts-HasRoom ctx.hash (0x80 ∷ []) h in
    let count = puts-buffered ctx.hash (0x80 ∷ []) h in
    let zeros = fill_zeros-eq 64 (sha256_update ctx (0x80 ∷ [])) (rw one room) (omega arith) in
    let same : zeros_for hash' ≡ (119 - length ctx.hash.buffer) % 64 = omega arith in
    let filled = puts-buffered ctx.hash (padding ctx.hash) h in
    let size = length-padding ctx.hash in
    let joined = puts-append ctx.hash (0x80 ∷ []) (replicate (zeros_for hash') 0) in
    (
      zeros
          ∙ ap (λ g. puts g (replicate (zeros_for g) 0)) one
          ∙ sym joined
          ∙ ap (λ n. puts ctx.hash (0x80 ∷ replicate n 0)) same,
      omega arith,
    )

-- The last eight bytes fill the block.
last_block :
    (hash : Hash) (bits : ℕ)
    → length hash.buffer ≡ 56
    → puts hash (length_be bits)
      ≡ record { state = sha256_block hash.state (hash.buffer ++ length_be bits); buffer = [] }
unfolding length_be
last_block hash bits h =
    let size = length-append hash.buffer (length_be bits) in
    puts-piece hash.state hash.buffer _ _ (omega arith)
    ∙ flush-full hash.state (hash.buffer ++ length_be bits) (omega arith)

-- A number in `count` bytes, the last of them the lowest.
pub big_endian : ℕ → ℕ → Bytes
big_endian zero n = []
big_endian (suc count) n = big_endian count (n / 256) ++ (n % 256) ∷ []

length_be-eq : (n : ℕ) → length_be n ≡ big_endian 8 n
unfolding length_be big_endian
length_be-eq n =
    let e2 : n / 256 / 256 ≡ n / 2 ^ 16 = omega arith in
    let e3 : n / 2 ^ 16 / 256 ≡ n / 2 ^ 24 = omega arith in
    let e4 : n / 2 ^ 24 / 256 ≡ n / 2 ^ 32 = omega arith in
    let e5 : n / 2 ^ 32 / 256 ≡ n / 2 ^ 40 = omega arith in
    let e6 : n / 2 ^ 40 / 256 ≡ n / 2 ^ 48 = omega arith in
    let e7 : n / 2 ^ 48 / 256 ≡ n / 2 ^ 56 = omega arith in
    let e0 : n / 2 ^ 0 ≡ n = omega arith in rw (e2, e3, e4, e5, e6, e7, e0) refl

-- The message as FIPS 180-4 pads it: a bit 1, zeros, and the length in bits in eight bytes, the
-- highest first.
pub pad_message : Bytes → Bytes
pad_message input =
    let zeros = replicate ((119 - length input % 64) % 64) 0 in
    input ++ ((0x80 ∷ zeros) ++ big_endian 8 (length input * 8 % 2 ^ 64))

length-pad_message : (input : Bytes) → length (pad_message input) % 64 ≡ 0
unfolding pad_message big_endian
length-pad_message input =
    let n = (119 - length input % 64) % 64 in
    let zeros : Bytes = replicate n 0 in
    let tail = big_endian 8 (length input * 8 % 2 ^ 64) in
    let eight : length tail ≡ 8 = refl in
    let size : length zeros ≡ n = length-replicate n 0 in
    let ends = length-append zeros tail in
    let total : length (pad_message input) ≡ length input + suc (length (zeros ++ tail)) =
      length-append input ((0x80 ∷ zeros) ++ tail) in
    omega arith

first_update :
    (input : Bytes)
    → let ctx = sha256_update sha256_init input in
      (ctx.hash ≡ puts sha256_init.hash input)
      × IsReady ctx
      × (ctx.bits ≡ length input * 8 % 2 ^ 64)
      × (length ctx.hash.buffer ≡ length input % 64)
unfolding sha256_update sha256_init
first_update input =
    let start : Hash = sha256_init.hash in
    let whole = absorb-puts (length input) start input (omega arith) (omega arith) in
    let room = puts-HasRoom start input (omega arith) in
    let count = puts-buffered start input (omega arith) in
    (whole, rw whole room, omega arith, rw whole (omega arith))

-- The hash of every input is the state behind the blocks of the padded message, each of 64 bytes,
-- and the padded message is a whole number of them.
pub sha256-blocks :
    (input : Bytes)
    → (sha256 input
        ≡ state_bytes
            (blocks (length (pad_message input) / 64) sha256_init.hash.state (pad_message input)))
      × (length (pad_message input) % 64 ≡ 0)
unfolding sha256 sha256_final pad_message padding sha256_init
sha256-blocks input =
    let start = sha256_init.hash in
    let pad = length-pad_message input in
    let ctx = sha256_update sha256_init input in
    let (absorbed, ready, bits, count) = first_update input in
    let (filled, room) = padded_hash ctx ready in
    let text = padding ctx.hash in
    let tail = length_be (length input * 8 % 2 ^ 64) in
    let last = last_block (puts ctx.hash text) (length input * 8 % 2 ^ 64) room in
    let all_puts =
      puts-append start input (text ++ tail)
      ∙ ap (λ g. puts g (text ++ tail)) (sym absorbed)
      ∙ puts-append ctx.hash text tail
      ∙ last in
    let in_blocks =
      puts-blocks (length (pad_message input) / 64) start.state (pad_message input) (omega arith) in
    let shut =
      ap (λ g. state_bytes (sha256_block g.state (g.buffer ++ length_be ctx.bits))) filled
      ∙ ap
          (λ n.
            state_bytes (
              sha256_block (puts ctx.hash text).state ((puts ctx.hash text).buffer ++ length_be n)))
          bits in
    let message : input ++ (text ++ tail) ≡ pad_message input =
      ap (λ n. input ++ ((0x80 ∷ replicate ((119 - n) % 64) 0) ++ tail)) count
      ∙ ap (λ t. input ++ ((0x80 ∷ replicate ((119 - length input % 64) % 64) 0) ++ t))
          (length_be-eq (length input * 8 % 2 ^ 64)) in
    (shut ∙ ap (λ g. state_bytes g.state) (sym all_puts ∙ ap (puts start) message ∙ in_blocks), pad)
