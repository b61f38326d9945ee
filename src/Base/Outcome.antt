-- ===== src/Base/Outcome.antt =====
-- What a call can come to: a value, a stop in `__panic` or
-- `crash_and_burn`, a step that C leaves undefined, or a loop
-- that is still running when its fuel is spent.
use mathlib.Core.Path.{◌≡◌, refl, ap}
use mathlib.Core.Logic.{◌≢◌}
use mathlib.Core.Bool.{Bool, true, false}
use tmos.Base.Tests.{if◌then◌else◌}

pub data Outcome {ℓ} (A : Type ℓ) : Type ℓ where
  done : A → Outcome A
  panic : Outcome A
  undef : Outcome A
  no_fuel : Outcome A

infixl 5 ◌>>=◌ ◌>>◌
abbrev pub ◌>>=◌ {ℓ κ} : {A : Type ℓ} {B : Type κ} → Outcome A → (A → Outcome B) → Outcome B
done a >>= f = f a
panic >>= f = panic
undef >>= f = undef
no_fuel >>= f = no_fuel

abbrev pub ◌>>◌ {ℓ} : {B : Type ℓ} → Outcome (Unit {0}) → Outcome B → Outcome B
m >> k = m >>= λ _. k

-- `ASSERT(x)`.
abbrev pub assert : Bool → Outcome (Unit {0})
assert true = done tt
assert false = panic

-- Inversion of a successful bind.
pub >>=-eq-done {ℓ κ} :
    {A : Type ℓ} {B : Type κ} (m : Outcome A) (f : A → Outcome B) {b : B}
    → (m >>= f) ≡ done b
    → (a : A) × (m ≡ done a) × (f a ≡ done b)
>>=-eq-done (done a) f h = (a, refl, h)
>>=-eq-done panic f h = cc
>>=-eq-done undef f h = cc
>>=-eq-done no_fuel f h = cc

assert-eq-done : (b : Bool) → assert b ≡ done tt → b ≡ true
assert-eq-done true h = refl
assert-eq-done false h = cc

pub done-injective {ℓ} : {A : Type ℓ} {a b : A} → done a ≡ done b → a ≡ b
done-injective {A} {a} e = ap value e
  where
    value : Outcome A → A
    value (done x) = x
    value other = a

-- Code behind an assertion that succeeds.
pub assert->>-eq-done {ℓ} :
    {B : Type ℓ} (t : Bool) (k : Outcome B) {b : B}
    → (assert t >> k) ≡ done b
    → (t ≡ true) × (k ≡ done b)
assert->>-eq-done true k h = (refl, h)
assert->>-eq-done false k h = cc

-- Both branches of a test that leads to a value.
pub if-eq-done {ℓ} :
    {A : Type ℓ} {P : Type 0} (b : Bool) (x y : Outcome A) {r : A}
    → (if b then x else y) ≡ done r
    → (x ≡ done r → P)
    → (y ≡ done r → P)
    → P
if-eq-done true x y e f g = f e
if-eq-done false x y e f g = g e

-- A bind that agrees on the value.
pub >>=-cong {ℓ κ} :
    {A : Type ℓ} {B : Type κ} (m : Outcome A) (f g : A → Outcome B)
    → ((a : A) → m ≡ done a → f a ≡ g a)
    → (m >>= f) ≡ (m >>= g)
>>=-cong (done a) f g h = h a refl
>>=-cong panic f g h = refl
>>=-cong undef f g h = refl
>>=-cong no_fuel f g h = refl

-- Code that ends: it is not still running when its fuel is spent.
pub >>=-ends {ℓ κ} :
    {A : Type ℓ} {B : Type κ} (m : Outcome A) (f : A → Outcome B)
    → m ≢ no_fuel
    → ((a : A) → f a ≢ no_fuel)
    → (m >>= f) ≢ no_fuel
>>=-ends (done a) f hm hf = hf a
>>=-ends panic f hm hf = λ e. cc
>>=-ends undef f hm hf = λ e. cc
>>=-ends no_fuel f hm hf = λ e. hm refl

-- The same where the value matters.
pub >>=-ends-done {ℓ κ} :
    {A : Type ℓ} {B : Type κ} (m : Outcome A) (f : A → Outcome B)
    → m ≢ no_fuel
    → ((a : A) → m ≡ done a → f a ≢ no_fuel)
    → (m >>= f) ≢ no_fuel
>>=-ends-done (done a) f hm hf = hf a refl
>>=-ends-done panic f hm hf = λ e. cc
>>=-ends-done undef f hm hf = λ e. cc
>>=-ends-done no_fuel f hm hf = λ e. hm refl

pub assert-ends : (b : Bool) → assert b ≢ no_fuel
assert-ends true = λ e. cc
assert-ends false = λ e. cc

pub if-ends :
    {A : Type 0} (b : Bool) (x y : Outcome A)
    → (b ≡ true → x ≢ no_fuel)
    → (b ≡ false → y ≢ no_fuel)
    → (if b then x else y) ≢ no_fuel
if-ends true x y hx hy = hx refl
if-ends false x y hx hy = hy refl
