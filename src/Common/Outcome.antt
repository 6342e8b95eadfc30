-- ===== src/Common/Outcome.antt =====
-- A computation that may throw: a result, or the error thrown.
use mathlib.Core.Path.{◌≡◌, refl}
use mathlib.Core.Logic.{◌↔◌, ◌⊎◌, inl, inr}
use mathlib.Core.Bool.{Bool, true, false}

pub data Result {ℓ} (E : Type 0) (A : Type ℓ) : Type ℓ where
  ok : A → Result E A
  err : E → Result E A

infixl 5 ◌>>=◌ ◌>>◌
abbrev pub ◌>>=◌ {ℓ κ} :
    {E : Type 0} {A : Type ℓ} {B : Type κ} → Result E A → (A → Result E B) → Result E B
ok a >>= f = f a
err e >>= f = err e

abbrev pub ◌>>◌ {ℓ} : {E : Type 0} {B : Type ℓ} → Result E (Unit {0}) → Result E B → Result E B
m >> k = m >>= λ _. k

-- `if (test) throw e`.
abbrev pub throw_if : {E : Type 0} → Bool → E → Result E (Unit {0})
throw_if true e = err e
throw_if false e = ok tt

abbrev pub IsOk {ℓ} : {E : Type 0} {A : Type ℓ} → Result E A → Type 0
IsOk (ok a) = Unit {0}
IsOk (err e) = ⊥

-- Where a chain succeeds, its first computation does, and so does the rest on that value.
pub >>=-eq-ok {ℓ κ} :
    {E : Type 0} {A : Type ℓ} {B : Type κ} (first : Result E A) (rest : A → Result E B) {end : B}
    → (first >>= rest) ≡ ok end
    → (value : A) × (first ≡ ok value) × (rest value ≡ ok end)
>>=-eq-ok (err thrown) rest done = cc
>>=-eq-ok (ok value) rest done = (value, refl, done)

pub IsOk->>= {ℓ κ} :
    {E : Type 0} {A : Type ℓ} {B : Type κ} (m : Result E A) (f : A → Result E B)
    → IsOk m
    → ((a : A) → IsOk (f a))
    → IsOk (m >>= f)
IsOk->>= (ok a) f h k = k a
IsOk->>= (err e) f h k = h

pub IsOk-value {ℓ} : {E : Type 0} {A : Type ℓ} (m : Result E A) → IsOk m → (a : A) × (m ≡ ok a)
IsOk-value (ok a) h = (a, refl)
IsOk-value (err e) h = absurd h

-- A computation that only maps the result is fine exactly when its first part is.
pub IsOk-map {ℓ κ} :
    {E : Type 0} {A : Type ℓ} {B : Type κ} (m : Result E A) (f : A → B)
    → IsOk (m >>= λ a. ok (f a)) ↔ IsOk m
IsOk-map (ok a) f = ((λ h. h), (λ h. h))
IsOk-map (err e) f = ((λ h. h), (λ h. h))

pub IsOk-throw_if {ℓ} :
    {E : Type 0} {B : Type ℓ} (b : Bool) (e : E) (k : Result E B)
    → IsOk (throw_if b e >> k) ↔ ((b ≡ false) × IsOk k)
IsOk-throw_if true e k = ((λ h. absurd h), (λ h. cc h.0))
IsOk-throw_if false e k = ((λ h. (refl, h)), (λ h. h.1))

-- What a test that did not throw has shown.
pub throw_if-ok :
    {E : Type 0} (b : Bool) (e : E) (done : Unit {0}) → throw_if b e ≡ ok done → b ≡ false
throw_if-ok true e done h = cc
throw_if-ok false e done h = refl

pub Result-cases {ℓ} :
    {E : Type 0} {A : Type ℓ} (m : Result E A) → ((a : A) × (m ≡ ok a)) ⊎ ((e : E) × (m ≡ err e))
Result-cases (ok a) = inl (a, refl)
Result-cases (err e) = inr (e, refl)

-- A computation that continued had not thrown.
pub >>-ok {ℓ} :
    {E : Type 0} {B : Type ℓ} (m : Result E (Unit {0})) (k : Result E B) {end : B}
    → (m >> k) ≡ ok end
    → (m ≡ ok tt) × (k ≡ ok end)
>>-ok (ok done) k h = (refl, h)
>>-ok (err e) k h = cc
