-- ===== src/Outcome.antt =====
-- What a piece of C code does: it returns a value, or its behaviour is undefined by the C standard
-- (a read through a null, dangling or uninitialised pointer, an access out of an array's bounds,
-- a conversion out of range, a value used at a type that it does not have).
use codecrafters_redis_c.Base.{◌≡◌, refl, Bool, true, false, Option, none, some}

pub data Outcome {ℓ} (A : Type ℓ) : Type ℓ where
  done : A → Outcome A
  undefined : Outcome A

infixl 5 ◌>>=◌ ◌>>◌
abbrev pub ◌>>=◌ {ℓ κ} : {A : Type ℓ} {B : Type κ} → Outcome A → (A → Outcome B) → Outcome B
done a >>= f = f a
undefined >>= f = undefined

abbrev pub ◌>>◌ {ℓ} : {B : Type ℓ} → Outcome (Unit {0}) → Outcome B → Outcome B
m >> k = m >>= λ _. k

-- A condition that the code relies on and does not test.
abbrev pub require : Bool → Outcome (Unit {0})
require true = done tt
require false = undefined

-- Dereferencing what may be absent.
abbrev pub deref {ℓ} : {A : Type ℓ} → Option A → Outcome A
deref none = undefined
deref (some a) = done a

-- A condition on the value, if there is one.
abbrev pub Ensures {ℓ κ} : {A : Type ℓ} → (A → Type κ) → Outcome A → Type κ
Ensures P (done a) = P a
Ensures P undefined = Unit

pub Ensures-bind {ℓ κ μ} :
    {A : Type ℓ} {B : Type κ} (P : B → Type μ) (m : Outcome A) (f : A → Outcome B)
    → ((a : A) → m ≡ done a → Ensures P (f a))
    → Ensures P (m >>= f)
Ensures-bind P (done a) f h = h a refl
Ensures-bind P undefined f h = tt

pub Ensures-done {ℓ κ} :
    {A : Type ℓ} (P : A → Type κ) (m : Outcome A) (a : A) → Ensures P m → m ≡ done a → P a
Ensures-done P m a h e = rw e at h

-- The parts of a computation that returns.
pub >>=-eq-done {ℓ κ} :
    {A : Type ℓ} {B : Type κ} (m : Outcome A) (f : A → Outcome B) {b : B}
    → (m >>= f) ≡ done b
    → (a : A) × (m ≡ done a) × (f a ≡ done b)
>>=-eq-done (done a) f h = (a, refl, h)
>>=-eq-done undefined f h = cc
