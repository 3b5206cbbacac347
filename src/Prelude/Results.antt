-- ===== src/Prelude/Results.antt =====
-- Python exceptions as values, and `Option` for functions that answer `None`.
use mathlib.Core.Path.{◌≡◌, refl}
use mathlib.Core.Logic.{◌⊎◌, inl, inr}
use mathlib.Core.Bool.{Bool, true, false}
use mathlib.Core.Option.{Option, none, some}

-- The exceptions that the modelled code raises. `struct_error` is `struct.error`.
pub data Error : Type 0 where
  value_error struct_error assertion_error runtime_error index_error key_error os_error
        config_error :
      Error

pub data Result {ℓ} (A : Type ℓ) : Type ℓ where
  ok : A → Result A
  err : Error → Result A

pub ok-injective {ℓ} : {A : Type ℓ} {a b : A} → ok a ≡ ok b → a ≡ b
ok-injective h = cc

infixl 5 ◌>>=◌ ◌>>◌
-- A statement, and then the rest of the body.
abbrev pub ◌>>=◌ {ℓ κ} :
    {Value : Type ℓ} {Next : Type κ} → Result Value → (Value → Result Next) → Result Next
err raised >>= rest = err raised
ok value >>= rest = rest value

abbrev pub ◌>>◌ {ℓ} : {Next : Type ℓ} → Result (Unit {0}) → Result Next → Result Next
check >> rest = check >>= (λ done. rest)

-- `if not b: raise e`
abbrev pub require : Bool → Error → Result (Unit {0})
require false raised = err raised
require true raised = ok tt

pub require-eq-ok {ℓ} :
    {Next : Type ℓ} (b : Bool) (raised : Error) (rest : Result Next) {x : Next}
    → (require b raised >> rest) ≡ ok x
    → (b ≡ true) × (rest ≡ ok x)
require-eq-ok false raised rest h = cc
require-eq-ok true raised rest h = (refl, h)

-- A body that returned has got past its first statement.
pub >>=-eq-ok {ℓ κ} :
    {Value : Type ℓ} {Next : Type κ} (first : Result Value) (rest : Value → Result Next) {x : Next}
    → (first >>= rest) ≡ ok x
    → (value : Value) × (first ≡ ok value) × (rest value ≡ ok x)
>>=-eq-ok (err raised) rest h = cc
>>=-eq-ok (ok value) rest h = (value, refl, h)

-- The value of a call that is caught: `try: return f() except ValueError: return None`.
abbrev pub caught {ℓ} : {A : Type ℓ} → Result A → Option A
caught (ok a) = some a
caught (err e) = none

pub Result-cases {ℓ} :
    {A : Type ℓ} (r : Result A) → ((a : A) × (r ≡ ok a)) ⊎ ((e : Error) × (r ≡ err e))
Result-cases (ok a) = inl (a, refl)
Result-cases (err e) = inr (e, refl)

-- A guard of a function that answers `None`: `if not b: return None`.
abbrev pub guard {ℓ} : {A : Type ℓ} → Bool → Option A → Option A
guard true k = k
guard false k = none

abbrev pub and_then {ℓ κ} : {A : Type ℓ} {B : Type κ} → Option A → (A → Option B) → Option B
and_then (some a) f = f a
and_then none f = none

pub and_then-eq-some {ℓ κ} :
    {A : Type ℓ} {B : Type κ} (m : Option A) (f : A → Option B) {b : B}
    → and_then m f ≡ some b
    → (a : A) × (m ≡ some a) × (f a ≡ some b)
and_then-eq-some (some a) f h = (a, refl, h)
and_then-eq-some none f h = cc

pub guard-eq-some {ℓ} :
    {A : Type ℓ} (b : Bool) (k : Option A) {a : A} → guard b k ≡ some a → (b ≡ true) × (k ≡ some a)
guard-eq-some true k h = (refl, h)
guard-eq-some false k h = cc
