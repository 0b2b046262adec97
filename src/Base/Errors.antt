-- ===== src/Base/Errors.antt =====
-- What a fallible Go call gives: a value, an error with its message, or a run-time panic.
use mathlib.Core.Path.{◌≡◌, refl}
use mathlib.Core.Logic.{◌↔◌}
use mathlib.Core.Bool.{Bool, true, false}
use reserve_os.Base.Tests.{if◌then◌else◌}
use reserve_os.Base.Text.{Bytes}

pub data Outcome {ℓ} (A : Type ℓ) : Type ℓ where
  ok : A → Outcome A
  err : Bytes → Outcome A
  panic : Outcome A

infixl 5 ◌>>=◌ ◌>>◌
abbrev pub ◌>>=◌ {ℓ κ} : {A : Type ℓ} {B : Type κ} → Outcome A → (A → Outcome B) → Outcome B
ok a >>= f = f a
err e >>= f = err e
panic >>= f = panic

abbrev pub ◌>>◌ {ℓ} : {B : Type ℓ} → Outcome (Unit {0}) → Outcome B → Outcome B
m >> k = m >>= λ _. k

-- `if bad { return errors.New(message) }`
abbrev pub fail_if : Bool → Bytes → Outcome (Unit {0})
fail_if true message = err message
fail_if false message = ok tt

-- A value at the end comes from a value of the first call.
pub >>=-eq-ok {ℓ κ} :
    {A : Type ℓ} {B : Type κ} (call : Outcome A) (next : A → Outcome B) {last : B}
    → (call >>= next) ≡ ok last
    → (mid : A) × (call ≡ ok mid) × (next mid ≡ ok last)
>>=-eq-ok panic next e = cc
>>=-eq-ok (err message) next e = cc
>>=-eq-ok (ok mid) next e = (mid, refl, e)

-- A test that did not fail gave the value of the other branch.
pub if-ok {ℓ} :
    {A : Type ℓ} (b : Bool) (m : Bytes) (x y : A) → (if b then err m else ok x) ≡ ok y → x ≡ y
if-ok true m x y e = cc
if-ok false m x y e = cc

-- Two calls that go on alike give the same.
pub >>=-same {ℓ κ} :
    {A : Type ℓ} {B : Type κ} (call : Outcome A) (f g : A → Outcome B)
    → ((a : A) → f a ≡ g a)
    → (call >>= f) ≡ (call >>= g)
>>=-same panic f g h = refl
>>=-same (err message) f g h = refl
>>=-same (ok a) f g h = h a

-- A test that did not fail, and the rest.
pub fail_if_iff :
    (b : Bool) (message : Bytes) (rest : Outcome (Unit {0}))
    → ((fail_if b message >> rest) ≡ ok tt) ↔ ((b ≡ false) × (rest ≡ ok tt))
fail_if_iff true message rest = (λ e. cc, λ (f, r). cc)
fail_if_iff false message rest = (λ e. (refl, e), λ (f, r). r)

pub last_fail_if_iff : (b : Bool) (message : Bytes) → (fail_if b message ≡ ok tt) ↔ (b ≡ false)
last_fail_if_iff true message = (λ e. cc, λ f. cc)
last_fail_if_iff false message = (λ e. refl, λ f. refl)
