-- ===== src/Base/Outcome.antt =====
-- The error codes of include/thalovant/error.h, and the result of an operation that can fail.
use Prim.Native.Nat.{ℕ}
use mathlib.Core.Path.{◌≡◌, refl, subst}
use mathlib.Core.Logic.{◌≢◌}
use mathlib.Core.Bool.{Bool, true, false}

-- THALOVANT_ERR_*; THALOVANT_OK is the `ok` below. `unlisted n` is no code of the program: it is the
-- int -n that a function returns where a length does not fit an int.
pub data Err : Type 0 where
  invalid nomem json missing auth unsupported policy_denied hub_refused : Err
  unlisted : (n : ℕ) → Err

-- A C function that returns a length or an error code is one into `Result` of what it wrote.
-- `stuck` is no value of the program: a loop of the model ran out of fuel.
pub data Result {ℓ} (A : Type ℓ) : Type ℓ where
  stuck : Result A
  err : (code : Err) → Result A
  ok : (written : A) → Result A

-- if (c) return e;
abbrev pub fail_if : (failed : Bool) (code : Err) → Result {0} Unit
fail_if false code = ok tt
fail_if true code = err code

infixl 5 ◌>>=◌ ◌>>◌
-- The early returns: what follows a call runs where the call succeeds.
abbrev pub ◌>>=◌ {ℓ κ} :
    {A : Type ℓ} {B : Type κ} (call : Result A) (next : A → Result B) → Result B
stuck >>= next = stuck
err code >>= next = err code
ok written >>= next = next written

abbrev pub ◌>>◌ {ℓ} : {B : Type ℓ} (check : Result {0} Unit) (next : Result B) → Result B
check >> next = check >>= λ _. next

module _ {ℓ κ} {A : Type ℓ} {B : Type κ} where
  -- A chain that succeeds does so through its first call.
  pub >>=-eq-ok :
      (call : Result A) (next : A → Result B) {b : B}
      → (call >>= next) ≡ ok b
      → (a : A) × (call ≡ ok a) × (next a ≡ ok b)
  >>=-eq-ok stuck next done = cc
  >>=-eq-ok (err code) next done = cc
  >>=-eq-ok (ok written) next done = (written, refl, done)

module _ {ℓ} {B : Type ℓ} where
  -- A chain that succeeds is past its early return.
  pub fail_if-eq-ok :
      (failed : Bool) (code : Err) (next : Result B) {b : B}
      → (fail_if failed code >> next) ≡ ok b
      → (failed ≡ false) × (next ≡ ok b)
  fail_if-eq-ok true code next done = cc
  fail_if-eq-ok false code next done = (refl, done)

  pub fail_if-false :
      {failed : Bool} (code : Err) (next : Result B)
      → failed ≡ false
      → (fail_if failed code >> next) ≡ next
  fail_if-false code next passed = rw passed refl

-- Equal successes are equal in both components.
pub ok_pair {ℓ κ} :
    {A : Type ℓ} {B : Type κ} {a a' : A} {b b' : B}
    → ◌≡◌ {A = Result (A × B)} (ok (a, b)) (ok (a', b'))
    → (a ≡ a') × (b ≡ b')
ok_pair h = (cc, cc)

-- The loops of a call do not run out of fuel.
abbrev pub IsDone {ℓ} : {A : Type ℓ} → Result A → Type ℓ
IsDone r = r ≢ stuck

pub >>=-IsDone {ℓ κ} :
    {A : Type ℓ} {B : Type κ} (call : Result A) (next : A → Result B)
    → IsDone call
    → ((a : A) → call ≡ ok a → IsDone (next a))
    → IsDone (call >>= next)
>>=-IsDone stuck next done then_done = λ h. done refl
>>=-IsDone (err code) next done then_done = λ h. cc
>>=-IsDone (ok written) next done then_done = then_done written refl

pub fail_if-IsDone {ℓ} :
    {B : Type ℓ} (failed : Bool) (code : Err) (next : Result B)
    → (failed ≡ false → IsDone next)
    → IsDone (fail_if failed code >> next)
fail_if-IsDone true code next done = λ h. cc
fail_if-IsDone false code next done = done refl

-- What a call gives, where it succeeds, has the property.
abbrev pub Ensures {ℓ κ} : {A : Type ℓ} → (A → Type κ) → Result A → Type (ℓ ⊔ κ)
Ensures {A = A} P r = (a : A) → r ≡ ok a → P a

pub >>=-Ensures {ℓ κ μ} :
    {A : Type ℓ} {B : Type κ} (P : B → Type μ) (call : Result A) (next : A → Result B)
    → ((a : A) → call ≡ ok a → Ensures P (next a))
    → Ensures P (call >>= next)
>>=-Ensures P stuck next h = λ b e. absurd (cc)
>>=-Ensures P (err code) next h = λ b e. absurd (cc)
>>=-Ensures P (ok written) next h = h written refl

pub fail_if-Ensures {ℓ κ} :
    {B : Type ℓ} (P : B → Type κ) (failed : Bool) (code : Err) (next : Result B)
    → (failed ≡ false → Ensures P next)
    → Ensures P (fail_if failed code >> next)
fail_if-Ensures P true code next h = λ b e. absurd (cc)
fail_if-Ensures P false code next h = h refl

pub ok-Ensures {ℓ κ} : {A : Type ℓ} (P : A → Type κ) (a : A) → P a → Ensures P (ok a)
ok-Ensures P a h = λ b e. let same : a ≡ b = cc in subst P same h
