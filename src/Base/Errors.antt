-- ===== src/Base/Errors.antt =====
-- Go's `error`: a chain of wrapped errors, and what the sources use of `errors` and `fmt.Errorf`.
-- The text of an error is the literal of the source's call, its format verbs unexpanded.
use Prim.Native.String.{String}
use mathlib.Core.Bool.{Bool, true, false, ◌||◌}
use mathlib.Core.Path.{◌≡◌, refl, ap}
use native.Mathlib.Omega.{arith}
use mathlib.Core.Logic.{ite, ◌⊎◌, inl, inr}

-- The errors that are package variables, by package.
pub data Sentinel : Type 0 where
  arrayops_conflict arrayops_unauthorized arrayops_unavailable arrayops_invalid : Sentinel
  telemetry_conflict telemetry_invalid telemetry_unavailable telemetry_unauthorized : Sentinel
  not_found conflict invalid_transition capacity_exceeded expired idempotency : Sentinel
  incompatible_load release_blocked : Sentinel
  canceled deadline_exceeded : Sentinel

pub Sentinel-discrete : Discrete Sentinel
Sentinel-discrete = hlevel

pub data Error : Type 0 where
  -- a package variable
  sentinel : Sentinel → Error
  -- `fmt.Errorf` with `%w`, or another wrapper that keeps its cause
  wrap : String → Error → Error
  -- `fmt.Errorf` with two `%w`
  wrap_two : String → Error → Error → Error
  -- an error with no cause
  plain : String → Error
  -- `*arrayops.SignatureError` and `*telemetry.DecodeError`
  signature_error : String → Error → Error
  decode_error : String → Error → Error

-- `errors.Is` against a package variable.
unfoldable pub is : Error → Sentinel → Bool
unfolding Sentinel-discrete
is (sentinel s) t = ite (Sentinel-discrete s t) true false
is (wrap msg e) t = is e t
is (wrap_two msg e f) t = is e t || is f t
is (plain msg) t = false
is (signature_error digest cause) t = is cause t
is (decode_error codec cause) t = is cause t

-- `errors.As` with a `*SignatureError`, and with a `*DecodeError`.
unfoldable pub as_signature : Error → Bool
as_signature (sentinel s) = false
as_signature (wrap msg e) = as_signature e
as_signature (wrap_two msg e f) = as_signature e || as_signature f
as_signature (plain msg) = false
as_signature (signature_error digest cause) = true
as_signature (decode_error codec cause) = as_signature cause

unfoldable pub as_decode : Error → Bool
as_decode (sentinel s) = false
as_decode (wrap msg e) = as_decode e
as_decode (wrap_two msg e f) = as_decode e || as_decode f
as_decode (plain msg) = false
as_decode (signature_error digest cause) = as_decode cause
as_decode (decode_error codec cause) = true

-- A function of type `(T, error)`, or of type `error` at `Unit`.
pub data Result {ℓ} (A : Type ℓ) : Type ℓ where
  ok : A → Result A
  err : Error → Result A

pub Result-cases {ℓ} :
    {A : Type ℓ} (r : Result A) → ((e : Error) × (r ≡ err e)) ⊎ ((a : A) × (r ≡ ok a))
Result-cases (err e) = inl (e, refl)
Result-cases (ok a) = inr (a, refl)

abbrev value_or {ℓ} : {A : Type ℓ} → A → Result A → A
value_or a (ok b) = b
value_or a (err e) = a

pub ok-injective {ℓ} : {A : Type ℓ} {a b : A} → ok a ≡ ok b → a ≡ b
ok-injective {a = a} h = ap (value_or a) h

infixl 5 ◌>>=◌ ◌>>◌
abbrev pub ◌>>=◌ {ℓ κ} : {A : Type ℓ} {B : Type κ} → Result A → (A → Result B) → Result B
ok a >>= f = f a
err e >>= f = err e

abbrev pub ◌>>◌ {ℓ} : {B : Type ℓ} → Result (Unit {0}) → Result B → Result B
m >> n = m >>= λ _. n

-- `if test { return err }`.
abbrev pub refuse : Bool → Error → Result (Unit {0})
refuse true e = err e
refuse false e = ok tt

pub refuse-ok : (b : Bool) (e : Error) → refuse b e ≡ ok tt → b ≡ false
refuse-ok true e h = absurd (ground arith)
refuse-ok false e h = refl

abbrev pub succeeded {ℓ} : {A : Type ℓ} → Result A → Bool
succeeded (ok a) = true
succeeded (err e) = false

-- A method that may fail, on a receiver of type `S`: what it wrote before an error stays written.
abbrev pub Method {ℓ} : Type ℓ → Type ℓ → Type ℓ
Method S A = S → Result A × S
