-- ===== src/Errors.antt =====
-- errors.py: the exceptions that the modelled code raises, and the wire-level fault codes.
pub mod Faults
use pact_passport.Base.{if◌then◌else◌, Bool, true, false, Option, none, some, ◌≡◌, refl}

-- `KeyError`, `TypeError`, `ValueError`, `IndexError` and `OverflowError` are Python's, `binascii_error`
-- is `binascii.Error`.
pub data Error : Type 0 where
  key_error type_error value_error binascii_error index_error overflow_error attenuation_violation :
      Error

-- What a call returns, or the exception that it raises.
pub data Result {ℓ} (A : Type ℓ) : Type ℓ where
  raise : Error → Result A
  ok : A → Result A

-- `if not test: raise e`
abbrev pub require : Bool → Error → Result (Unit {0})
require passes e = if passes then ok tt else raise e

abbrev pub or_raise {ℓ} : {A : Type ℓ} → Option A → Error → Result A
or_raise none e = raise e
or_raise (some a) e = ok a

infixl 5 ◌>>=◌ ◌>>◌
abbrev pub ◌>>=◌ {ℓ κ} : {A : Type ℓ} {B : Type κ} → Result A → (A → Result B) → Result B
raise e >>= next = raise e
ok a >>= next = next a

abbrev pub ◌>>◌ {ℓ κ} : {A : Type ℓ} {B : Type κ} → Result A → Result B → Result B
first >> second = first >>= λ _. second

-- The parts of a sequence that went through.
pub >>=-eq-ok {ℓ κ} :
    {A : Type ℓ} {B : Type κ} (first : Result A) (next : A → Result B) {b : B}
    → (first >>= next) ≡ ok b
    → (a : A) × (first ≡ ok a) × (next a ≡ ok b)
>>=-eq-ok (raise e) next h = cc
>>=-eq-ok (ok a) next h = (a, refl, h)

pub require-eq-ok : (b : Bool) (e : Error) {u : Unit {0}} → require b e ≡ ok u → b ≡ true
require-eq-ok true e h = refl
require-eq-ok false e h = cc
