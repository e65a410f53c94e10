-- ===== src/Prelude/Result.antt =====
-- Python exceptions as values: a call returns, or raises one of the exceptions that the code
-- raises or meets. The text is the exception's message.
use mathlib.Core.Path.{◌≡◌, refl}
use Prim.Native.String.{String}
use ffmuc_salt_public.Prelude.Tests.{if◌then◌else◌}
use mathlib.Core.Bool.{Bool, true, false}

pub data Error : Type 0 where
  salt_invocation_error : String → Error
  command_execution_error : String → Error
  key_error : String → Error
  value_error : String → Error
  index_error : Error
  type_error : Error
  attribute_error : Error
  unbound_error : String → Error
  overflow_error : String → Error
  os_error : String → Error
  runtime_error : String → Error
  exception : String → Error

-- What `int(s)` raises for a text of more than 4300 digits, and what the conversion of an integer to a
-- `float` raises where it is too large
abbrev pub int_limit : Error
int_limit = value_error "Exceeds the limit (4300 digits) for integer string conversion"

abbrev pub float_limit : Error
float_limit = overflow_error "int too large to convert to float"

pub data Result {ℓ} (A : Type ℓ) : Type ℓ where
  ok : A → Result A
  err : Error → Result A

abbrev pub is_ok {ℓ} : {A : Type ℓ} → Result A → Bool
is_ok (ok a) = true
is_ok (err e) = false

infixl 5 ◌>>=◌ ◌>>◌
-- A statement that binds its value, and one that has none
abbrev pub ◌>>=◌ {ℓ κ} : {X : Type ℓ} {Y : Type κ} → Result X → (X → Result Y) → Result Y
ok x >>= next = next x
err e >>= next = err e

abbrev pub ◌>>◌ {ℓ} : {Y : Type ℓ} → Result (Unit {0}) → Result Y → Result Y
first >> next = first >>= λ _. next

-- `if b: raise e`
abbrev pub raise_if : Bool → Error → Result (Unit {0})
raise_if b e = if b then err e else ok tt

pub >>=-eq-ok {ℓ κ} :
    {X : Type ℓ} {Y : Type κ} (first : Result X) (next : X → Result Y) {y : Y}
    → (first >>= next) ≡ ok y
    → (x : X) × (first ≡ ok x) × (next x ≡ ok y)
>>=-eq-ok (ok x) next h = (x, refl, h)
>>=-eq-ok (err e) next h = cc

pub >>=_assoc {ℓ κ μ} :
    {A : Type ℓ} {B : Type κ} {C : Type μ} (m : Result A) (f : A → Result B) (g : B → Result C)
    → (m >>= f >>= g) ≡ (m >>= λ a. f a >>= g)
>>=_assoc (ok a) f g = refl
>>=_assoc (err e) f g = refl

pub ok_inj {ℓ} : {A : Type ℓ} {a b : A} → ok a ≡ ok b → a ≡ b
ok_inj h = cc

pub err_inj {ℓ} : {A : Type ℓ} {e f : Error} → ◌≡◌ {A = Result A} (err e) (err f) → f ≡ e
err_inj h = cc
