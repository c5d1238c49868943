-- ===== src/Base/Text.antt =====
-- C strings and the character classes of <ctype.h> in the "C" locale.
use Prim.Native.Nat.{ℕ, zero, suc, ◌+◌, ◌<◌, ◌≤◌}
use Prim.Native.Char.{code}
use Prim.Native.String.{String}
use mathlib.Core.Path.{◌≡◌, refl}
use native.Mathlib.Omega.{arith}
use thalovant_embedded_c.Base.Lists.{all, length}
use mathlib.Core.Logic.{◌⊎◌, inl, inr}
use mathlib.Core.Bool.{Bool, true, false, not, ◌&&◌, ◌||◌}
use mathlib.Core.List.{List, [], ◌∷◌, ◌++◌}
use thalovant_embedded_c.Base.Tests.{Bool-cases, ◌==◌, within, if◌then◌else◌}

abbrev pub Bytes : Type 0
Bytes = List ℕ

abbrev pub IsByte : ℕ → Type 0
IsByte b = b < 256

-- The bytes of an ASCII literal.
abbrev pub codes : String → Bytes
codes String.[] = []
codes (String.◌∷◌ c s) = code c ∷ codes s

-- INT_MAX
abbrev pub int_max : ℕ
int_max = 2147483647

unfoldable pub is_space : ℕ → Bool
is_space c = c == 32 || within 9 13 c

unfoldable pub is_digit : ℕ → Bool
is_digit c = within b'0' b'9' c

unfoldable pub to_lower : ℕ → ℕ
to_lower c = if within b'A' b'Z' c then c + 32 else c

-- while (start < end && p(in[start])) start++;
unfoldable pub trim_start : (ℕ → Bool) → Bytes → Bytes
trim_start p [] = []
trim_start p (c ∷ cs) = let rest = trim_start p cs in if p c then rest else c ∷ cs

-- while (end > start && p(in[end - 1])) end--;
unfoldable pub trim_end : (ℕ → Bool) → Bytes → Bytes
trim_end p [] = []
trim_end p (c ∷ cs) = elim (trim_end p cs) [ [] ↦ if p c then [] else c ∷ [] | d ∷ ds ↦ c ∷ d ∷ ds ]

-- Below a bound, a test is checked at every number by evaluation.
unfoldable pub all_below : ℕ → (ℕ → Bool) → Bool
all_below zero p = true
all_below (suc n) p = p n && all_below n p

pub all_below→eq : (n : ℕ) (p : ℕ → Bool) → all_below n p ≡ true → (x : ℕ) → x < n → p x ≡ true
unfolding all_below
all_below→eq zero p h x lt = absurd (omega arith)
all_below→eq (suc n) p h x lt = ground (arith, λ (g : all_below n p ≡ true). all_below→eq n p g x)

-- A run of characters that the test takes, behind text with none of them.
pub trim_end-append :
    (p : ℕ → Bool) (body tail : Bytes)
    → all p tail ≡ true
    → all (λ c. not (p c)) body ≡ true
    → trim_end p (body ++ tail) ≡ body
unfolding trim_end
trim_end-append p [] [] h b = refl
trim_end-append p [] (t ∷ ts) h b = ground (arith, trim_end-append p [] ts)
trim_end-append p (c ∷ []) tail h b = ground (arith, trim_end-append p [] tail h)
trim_end-append p (c ∷ d ∷ ds) tail h b = ground (arith, trim_end-append p (d ∷ ds) tail h)

pub length-trim_end : (p : ℕ → Bool) (s : Bytes) → length (trim_end p s) ≤ length s
unfolding trim_end
length-trim_end p [] = omega arith
length-trim_end p (c ∷ cs) = ground (arith, length-trim_end p cs)

pub length-trim_start : (p : ℕ → Bool) (s : Bytes) → length (trim_start p s) ≤ length s
unfolding trim_start
length-trim_start p [] = omega arith
length-trim_start p (c ∷ cs) = ground (arith, length-trim_start p cs)

-- A text is cut at both ends where the tests fail there.
pub trim_start-cases :
    (p : ℕ → Bool) (s : Bytes)
    → (trim_start p s ≡ [])
      ⊎ ((c : ℕ) × (rest : Bytes) × (trim_start p s ≡ c ∷ rest) × (p c ≡ false))
unfolding trim_start
trim_start-cases p [] = inl refl
trim_start-cases p (c ∷ cs) = elim (Bool-cases (p c)) [
  | inl e ↦ rw e (trim_start-cases p cs)
  | inr e ↦ inr (c, cs, rw e refl, e)
]

pub trim_end-head :
    (p : ℕ → Bool) (c : ℕ) (cs : Bytes)
    → p c ≡ false
    → (rest : Bytes) × (trim_end p (c ∷ cs) ≡ c ∷ rest)
unfolding trim_end
trim_end-head p c cs kept = keep (trim_end p cs)
  where
    keep :
        (t : Bytes)
        → (rest : Bytes) × (elim t [ [] ↦ if p c then [] else c ∷ [] | d ∷ ds ↦ c ∷ d ∷ ds ]
            ≡ c ∷ rest)
    keep [] = ([], rw kept refl)
    keep (d ∷ ds) = (d ∷ ds, refl)

-- The last character, and `c` of no text.
unfoldable pub last_or : ℕ → Bytes → ℕ
last_or c [] = c
last_or c (d ∷ ds) = last_or d ds

-- What is left ends in a character that was to be kept.
pub last_or-trim_end :
    (p : ℕ → Bool) (c : ℕ) (s : Bytes) → p c ≡ false → p (last_or c (trim_end p s)) ≡ false
unfolding trim_end last_or
last_or-trim_end p c [] kept = kept
last_or-trim_end p c (d ∷ ds) kept = step (trim_end p ds) (λ k. last_or-trim_end p k ds)
  where
    step :
        (t : Bytes)
        → ((k : ℕ) → p k ≡ false → p (last_or k t) ≡ false)
        → p (last_or c (elim t [ [] ↦ if p d then [] else d ∷ [] | e ∷ es ↦ d ∷ e ∷ es ])) ≡ false
    step [] h = elim (Bool-cases (p d)) [ inl e ↦ rw e kept | inr e ↦ rw e e ]
    step (e ∷ es) h = h c kept
