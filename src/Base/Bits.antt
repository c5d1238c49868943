-- ===== src/Base/Bits.antt =====
-- The operators & | ^ on unsigned values: one equation for the lowest digit of each, and from these
-- the laws for masks, for disjoint fields and for a byte masked twice by the same key.
use Prim.Native.Nat.{
  ℕ, zero, suc, ◌+◌, ◌-◌, ◌*◌, ◌/◌, ◌%◌, ◌^◌, ◌≤◌, ◌<◌, min, max, differ, digits, bit_and, bit_or,
  bit_xor, bit_and-bitwise, bit_or-bitwise, bit_xor-bitwise,
}
use mathlib.Core.Path.{◌≡◌, refl, ap, ◌∙◌, sym}
use native.Mathlib.Nat.{pow-suc, one-le-pow, mod-lt, div-add-mod'}
use native.Mathlib.Omega.{arith}

-- Any count of digits that is not below the first number serves.
digits_enough :
    (z : ℕ → ℕ) (f : ℕ → ℕ → ℕ) (k n b a : ℕ) → a ≤ k → a ≤ n → digits z f k a b ≡ digits z f n a b
digits_enough z f zero n b (suc a) h g = absurd (omega arith)
digits_enough z f (suc k) zero b (suc a) h g = absurd (omega arith)
digits_enough z f (suc k) (suc n) b (suc a) h g =
    let low = f (suc a % 2) (b % 2) in
    ap (λ t. t * 2 + low) (digits_enough z f k n (b / 2) (suc a / 2) (omega arith) (omega arith))
digits_enough z f zero zero b zero h g = refl
digits_enough z f zero (suc n) b zero h g = refl
digits_enough z f (suc k) zero b zero h g = refl
digits_enough z f (suc k) (suc n) b zero h g = refl

pub bit_and_low : (a b : ℕ) → bit_and a b ≡ bit_and (a / 2) (b / 2) * 2 + min (a % 2) (b % 2)
bit_and_low zero b = simp bit_and-bitwise (omega arith)
bit_and_low (suc a) b =
    simp bit_and-bitwise
      (omega (arith, digits_enough (λ y. 0) min a (suc a / 2) (b / 2) (suc a / 2)))

pub bit_or_low : (a b : ℕ) → bit_or a b ≡ bit_or (a / 2) (b / 2) * 2 + max (a % 2) (b % 2)
bit_or_low zero b = simp bit_or-bitwise (omega arith)
bit_or_low (suc a) b =
    simp bit_or-bitwise
      (omega (arith, digits_enough (λ y. y) max a (suc a / 2) (b / 2) (suc a / 2)))

differ_digits : (x y : ℕ) → x < 2 → y < 2 → differ x y ≡ (x + y) % 2
differ_digits zero y h g = omega arith
differ_digits (suc zero) zero h g = refl
differ_digits (suc zero) (suc zero) h g = refl
differ_digits (suc zero) (suc (suc y)) h g = absurd (omega arith)
differ_digits (suc (suc x)) y h g = absurd (omega arith)

xor_digits : (a b : ℕ) → bit_xor a b ≡ bit_xor (a / 2) (b / 2) * 2 + differ (a % 2) (b % 2)
xor_digits zero b = simp bit_xor-bitwise (omega arith)
xor_digits (suc a) b =
    simp bit_xor-bitwise
      (omega (arith, digits_enough (λ y. y) differ a (suc a / 2) (b / 2) (suc a / 2)))

pub bit_xor_low : (a b : ℕ) → bit_xor a b ≡ bit_xor (a / 2) (b / 2) * 2 + (a + b) % 2
bit_xor_low a b =
    omega (arith, xor_digits a b, differ_digits (a % 2) (b % 2) (omega arith) (omega arith))

double_power : (q k : ℕ) → q * 2 ^ suc k ≡ 2 * (q * 2 ^ k)
double_power q k = omega (arith, ap (λ (t : ℕ). q * t) (pow-suc 2 k))

-- Values below 2 ^ k stay below it under each operator.
module _ (op : ℕ → ℕ → ℕ) (f : ℕ → ℕ → ℕ) (digit : (x y : ℕ) → f x y ≤ 1)
    (low : (a b : ℕ) → op a b ≡ op (a / 2) (b / 2) * 2 + f a b) (none_left : op 0 0 ≡ 0) where
  op_bound : (k a b : ℕ) → a < 2 ^ k → b < 2 ^ k → op a b < 2 ^ k
  op_bound zero a b h g =
      let a0 : a ≡ 0 = omega arith in
      let b0 : b ≡ 0 = omega arith in rw (a0, b0) (omega (arith, none_left))
  op_bound (suc k) a b h g = omega (
    arith,
    low a b,
    digit a b,
    pow-suc 2 k,
    op_bound k (a / 2) (b / 2) (omega (arith, pow-suc 2 k)) (omega (arith, pow-suc 2 k)),
  )

pub bit_and_bound : (k a b : ℕ) → a < 2 ^ k → b < 2 ^ k → bit_and a b < 2 ^ k
bit_and_bound = op_bound bit_and (λ a b. min (a % 2) (b % 2)) (λ a b. omega arith) bit_and_low refl

pub bit_or_bound : (k a b : ℕ) → a < 2 ^ k → b < 2 ^ k → bit_or a b < 2 ^ k
bit_or_bound = op_bound bit_or (λ a b. max (a % 2) (b % 2)) (λ a b. omega arith) bit_or_low refl

pub bit_xor_bound : (k a b : ℕ) → a < 2 ^ k → b < 2 ^ k → bit_xor a b < 2 ^ k
bit_xor_bound = op_bound bit_xor (λ a b. (a + b) % 2) (λ a b. omega arith) bit_xor_low refl

-- A value that is masked twice by one key is itself again.
pub bit_xor_cancel : (k a b : ℕ) → a < 2 ^ k → b < 2 ^ k → bit_xor (bit_xor a b) b ≡ a
bit_xor_cancel zero a b h g =
    let a0 : a ≡ 0 = omega arith in let b0 : b ≡ 0 = omega arith in rw (a0, b0)
bit_xor_cancel (suc k) a b h g =
    let (p, q) = halves in
    let again : bit_xor a b / 2 ≡ bit_xor (a / 2) (b / 2) = omega (arith, bit_xor_low a b) in
    let back : bit_xor (bit_xor a b / 2) (b / 2) ≡ a / 2 =
      rw again (bit_xor_cancel k (a / 2) (b / 2) p q) in
    omega (arith, bit_xor_low (bit_xor a b) b, bit_xor_low a b, back)
  where
    halves : (a / 2 < 2 ^ k) × (b / 2 < 2 ^ k)
    halves = (omega (arith, pow-suc 2 k), omega (arith, pow-suc 2 k))

or_zero : (k a : ℕ) → a < 2 ^ k → bit_or a 0 ≡ a
or_zero zero a h = let a0 : a ≡ 0 = omega arith in rw a0
or_zero (suc k) a h = omega (arith, bit_or_low a 0, or_zero k (a / 2) (omega (arith, pow-suc 2 k)))

-- (hi << k) | lo is a sum where lo has k bits.
pub bit_or_join :
    (k w hi lo : ℕ) → hi < 2 ^ w → lo < 2 ^ k → bit_or (hi * 2 ^ k) lo ≡ hi * 2 ^ k + lo
bit_or_join zero w hi lo h fits =
    let lo0 : lo ≡ 0 = omega arith in
    let one : hi * 2 ^ 0 ≡ hi = omega arith in rw (lo0, one) (omega (arith, or_zero w hi h))
bit_or_join (suc k) w hi lo h fits =
    let low : lo / 2 < 2 ^ k = omega (arith, pow-suc 2 k) in
    let twice = double_power hi k in
    let half : hi * 2 ^ suc k / 2 ≡ hi * 2 ^ k = omega (arith, twice) in
    let ih = bit_or_join k w hi (lo / 2) h low in
    omega (arith, bit_or_low (hi * 2 ^ suc k) lo, rw (← half) at ih, twice, half)

and_zero : (k a : ℕ) → a < 2 ^ k → bit_and a 0 ≡ 0
and_zero zero a h = let a0 : a ≡ 0 = omega arith in rw a0
and_zero (suc k) a h =
    omega (arith, bit_and_low a 0, and_zero k (a / 2) (omega (arith, pow-suc 2 k)))

lt-pow_self : (a : ℕ) → a < 2 ^ a
lt-pow_self zero = omega arith
lt-pow_self (suc a) = omega (arith, lt-pow_self a, pow-suc 2 a)

mask_fields : (k q r : ℕ) → r < 2 ^ k → bit_and (q * 2 ^ k + r) (2 ^ k - 1) ≡ r
mask_fields zero q r fits = omega (arith, and_zero (q * 1 + r) (q * 1 + r) (lt-pow_self _))
mask_fields (suc k) q r fits =
    let twice = double_power q k in
    let low : r / 2 < 2 ^ k = omega (arith, pow-suc 2 k) in
    let half : (q * 2 ^ suc k + r) / 2 ≡ q * 2 ^ k + r / 2 = omega (arith, twice) in
    let mask : (2 ^ suc k - 1) / 2 ≡ 2 ^ k - 1 = omega (arith, pow-suc 2 k, one-le-pow k 2) in
    let ih = mask_fields k q (r / 2) low in
    let step = bit_and_low (q * 2 ^ suc k + r) (2 ^ suc k - 1) in
    omega (arith, step, rw (← half, ← mask) at ih, twice, pow-suc 2 k, one-le-pow k 2)

-- A mask of k ones is the remainder by 2 ^ k.
pub bit_and_mask : (k a : ℕ) → bit_and a (2 ^ k - 1) ≡ a % 2 ^ k
bit_and_mask k a =
    rw (div-add-mod' a (2 ^ k)) at
      (mask_fields k (a / 2 ^ k) (a % 2 ^ k) (mod-lt a (one-le-pow k 2 (omega arith))))

-- So it is at any width of the high field.
pub bit_or_fields : (k hi lo : ℕ) → lo < 2 ^ k → bit_or (hi * 2 ^ k) lo ≡ hi * 2 ^ k + lo
bit_or_fields k hi lo fits = bit_or_join k hi hi lo (lt-pow_self hi) fits

xor_sizes : (a b : ℕ) → (a < 2 ^ (a + b)) × (b < 2 ^ (a + b))
xor_sizes a b = (omega (arith, lt-pow_self (a + b)), omega (arith, lt-pow_self (a + b)))

-- Two masks by one key undo each other, at any width.
pub bit_xor_undo : (a b : ℕ) → bit_xor (bit_xor a b) b ≡ a
bit_xor_undo a b = let (ha, hb) = xor_sizes a b in bit_xor_cancel (a + b) a b ha hb

or_is_zero : (k a b : ℕ) → a < 2 ^ k → b < 2 ^ k → bit_or a b ≡ 0 → (a ≡ 0) × (b ≡ 0)
or_is_zero zero a b h g e = omega arith
or_is_zero (suc k) a b h g e =
    let low = bit_or_low a b in
    let (p, q) =
      or_is_zero k (a / 2) (b / 2) (omega (arith, pow-suc 2 k)) (omega (arith, pow-suc 2 k))
        (omega arith) in
    omega arith

-- A disjunction is zero where both its sides are, and only there.
pub bit_or_zero : (a b : ℕ) → bit_or a b ≡ 0 → (a ≡ 0) × (b ≡ 0)
bit_or_zero a b e = let (ha, hb) = xor_sizes a b in or_is_zero (a + b) a b ha hb e

-- So an exclusive or is zero at equal values, and only there.
pub bit_xor_zero : (a b : ℕ) → bit_xor a b ≡ 0 → a ≡ b
bit_xor_zero a b e = sym (bit_xor_undo a b) ∙ (rw e (zero_xor b))
  where
    zero_xor : (b : ℕ) → bit_xor 0 b ≡ b
    zero_xor b = bit_xor-bitwise 0 b

xor_same : (k a : ℕ) → a < 2 ^ k → bit_xor a a ≡ 0
xor_same zero a h = let a0 : a ≡ 0 = omega arith in rw a0
xor_same (suc k) a h =
    omega (arith, bit_xor_low a a, xor_same k (a / 2) (omega (arith, pow-suc 2 k)))

pub bit_xor_self : (a : ℕ) → bit_xor a a ≡ 0
bit_xor_self a = xor_same a a (lt-pow_self a)
