-- ===== src/Base/Result.antt =====
-- Go's pair of a value and an error: either the value or the error is used.
use Prim.Native.String.{String}
use mathlib.Core.Path.{◌≡◌, refl}

-- One constructor for each error that the program makes itself, and those that it passes on from
-- pgx, from the LDAP client and from the operating system.
pub data Error : Type 0 where
  panicked : String → Error
  failure : String → Error
  out_of_range : Error
  stack_overflow : Error
  invalid_auth : String → String → Error
  ldap_unset : String → Error
  sql_error : String → Error
  scan_error : String → Error
  field_error : String → String → Error
  invalid_option : String → Error
  invalid_state : String → Error
  unmarshal_error : String → Error
  extension_unavailable : String → Error
  version_unavailable : String → String → Error
  owner_missing : Error
  absent_granted : String → Error

pub data Result {ℓ} (A : Type ℓ) : Type ℓ where
  err : Error → Result A
  ok : A → Result A

-- if err != nil { return err }
infixl 5 ◌>>=◌
abbrev pub ◌>>=◌ {κ μ} : {A : Type κ} {B : Type μ} → Result A → (A → Result B) → Result B
err e >>= next = err e
ok value >>= next = next value

pub ok-injective {ℓ} : {A : Type ℓ} {a b : A} → ok a ≡ ok b → a ≡ b
ok-injective h = cc

-- What a chain that succeeded went through.
pub >>=-eq-ok {κ μ} :
    {A : Type κ} {B : Type μ} (r : Result A) (next : A → Result B) {result : B}
    → (r >>= next) ≡ ok result
    → (value : A) × (r ≡ ok value) × (next value ≡ ok result)
>>=-eq-ok (err e) next h = cc
>>=-eq-ok (ok value) next h = (value, refl, h)
