-- ===== src/Base/Methods.antt =====
-- Methods that may fail, in sequence: what Go writes as `if err != nil { return err }` after a call.
use mathlib.Core.Path.{◌≡◌, refl, ap, sym}
use mathlib.Core.Logic.{◌⊎◌, inl, inr}
use native.Mathlib.Omega.{arith}
use ufo_observation_command.Base.Errors.{Error, Result, ok, err, Method}

module _ {S : Type 0} where
  abbrev pub return : {A : Type 0} → A → Method S A
  return a s = (ok a, s)

  abbrev pub fail : {A : Type 0} → Error → Method S A
  fail e s = (err e, s)

  -- The rest of a method, once its first call has returned.
  unfoldable pub after : {A B : Type 0} → Result A × S → (A → Method S B) → Result B × S
  after (ok a, s) f = f a s
  after (err e, s) f = (err e, s)

  infixl 5 ◌>>=◌ ◌>>◌
  abbrev pub ◌>>=◌ : {A B : Type 0} → Method S A → (A → Method S B) → Method S B
  unfolding after
  (m >>= f) s = after (m s) f

  abbrev pub ◌>>◌ : {B : Type 0} → Method S (Unit {0}) → Method S B → Method S B
  m >> n = m >>= λ _. n

  -- A check without effects inside a method.
  abbrev pub lift : {A : Type 0} → Result A → Method S A
  lift r s = (r, s)

  -- `if err != nil { return f(err) }` after a call.
  unfoldable pub on_error : {A : Type 0} → (Error → Error) → Result A × S → Result A × S
  on_error f (ok a, s) = (ok a, s)
  on_error f (err e, s) = (err (f e), s)

  abbrev pub map_error : {A : Type 0} → (Error → Error) → Method S A → Method S A
  unfolding on_error
  map_error f m s = on_error f (m s)

  -- A call that succeeds is a first part that succeeds and a rest that does.
  pub after-ok :
      {A B : Type 0} (m : Result A × S) (f : A → Method S B) {b : B} {s : S}
      → after m f ≡ (ok b, s)
      → (a : A) × (t : S) × (m ≡ (ok a, t)) × (f a t ≡ (ok b, s))
  unfolding after
  after-ok (ok a, t) f h = (a, t, refl, h)
  after-ok (err e, t) f h = absurd (ground arith)

  -- A call that fails does so in its first part or in the rest.
  pub after-err :
      {A B : Type 0} (m : Result A × S) (f : A → Method S B) {e : Error} {s : S}
      → after m f ≡ (err e, s)
      → (m ≡ (err e, s)) ⊎ ((a : A) × (t : S) × (m ≡ (ok a, t)) × (f a t ≡ (err e, s)))
  unfolding after
  after-err (ok a, t) f h = inr (a, t, refl, h)
  after-err (err x, t) f h = inl (ground arith)

  pub on_error-ok :
      {A : Type 0} (f : Error → Error) (m : Result A × S) {a : A} {s : S}
      → on_error f m ≡ (ok a, s)
      → m ≡ (ok a, s)
  unfolding on_error
  on_error-ok f (ok b, t) h = h
  on_error-ok f (err e, t) h = absurd (ground arith)

-- The same for methods, where the parts are read off the type of the hypothesis.
module _ {S : Type 0} where
  pub bind-ok :
      {A B : Type 0} (m : Method S A) (f : A → Method S B) {b : B} {w w' : S}
      → (m >>= f) w ≡ (ok b, w')
      → (a : A) × (t : S) × (m w ≡ (ok a, t)) × (f a t ≡ (ok b, w'))
  unfolding after
  bind-ok m f {w = w} h = after-ok (m w) f h

  pub map_error-ok :
      {A : Type 0} (f : Error → Error) (m : Method S A) {a : A} {w w' : S}
      → map_error f m w ≡ (ok a, w')
      → m w ≡ (ok a, w')
  unfolding on_error
  map_error-ok f m {w = w} h = on_error-ok f (m w) h

  pub lift-ok :
      {A : Type 0} (r : Result A) {a : A} {w w' : S} → lift r w ≡ (ok a, w') → (r ≡ ok a) × (w' ≡ w)
  lift-ok r h = (ap (λ x. x.0) h, sym (ap (λ x. x.1) h))
