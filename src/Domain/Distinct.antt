-- ===== src/Domain/Distinct.antt =====
-- Lists without repetitions, and lists that share no element, as the loops over a `seen` set of
-- internal/domain test them.
use ufo_observation_command.Base.{
  String, ◌==◌, eq_iff, ◌≡◌, ◌≢◌, ◌↔◌, refl, false, List, [], ◌∷◌, ◌++◌, any, All, arith,
}

abbrev pub NoRepeats : List String → Type 0
NoRepeats [] = Unit
NoRepeats (x ∷ xs) = All (λ y. x ≢ y) xs × NoRepeats xs

-- No element of the second list is in the first.
abbrev pub Apart : List String → List String → Type 0
Apart xs = All (λ y. All (λ x. x ≢ y) xs)

pub any_iff : (y : String) (xs : List String) → (any (λ x. x == y) xs ≡ false) ↔ All (λ x. x ≢ y) xs
any_iff y [] = (λ h. tt, λ h. refl)
any_iff y (x ∷ xs) = (
  λ h. (ground (arith, eq_iff x y), (any_iff y xs).0 (ground arith)),
  λ h. let more = (any_iff y xs).1 h.1 in ground (arith, eq_iff x y, h.0),
)

-- Apart from one element more.
pub Apart-cons :
    (x : String) (xs ys : List String) → Apart (x ∷ xs) ys ↔ (All (λ y. x ≢ y) ys × Apart xs ys)
Apart-cons x xs [] = (λ h. (tt, tt), λ h. tt)
Apart-cons x xs (y ∷ ys) = (
  λ h. let more = (Apart-cons x xs ys).0 h.1 in ((h.0.0, more.0), (h.0.1, more.1)),
  λ h. ((h.0.0, h.1.0), (Apart-cons x xs ys).1 (h.0.1, h.1.1)),
)

pub Apart-nil : (ys : List String) → Apart [] ys
Apart-nil [] = tt
Apart-nil (y ∷ ys) = (tt, Apart-nil ys)

All-both {ℓ} :
    {A : Type ℓ} (P : A → Type 0) (xs ys : List A) → All P (xs ++ ys) ↔ (All P xs × All P ys)
All-both P [] ys = (λ h. (tt, h), λ h. h.1)
All-both P (x ∷ xs) ys = (
  λ h. let more = (All-both P xs ys).0 h.1 in ((h.0, more.0), more.1),
  λ h. (h.0.0, (All-both P xs ys).1 (h.0.1, h.1)),
)

pub NoRepeats-append :
    (xs ys : List String) → NoRepeats (xs ++ ys) ↔ (NoRepeats xs × NoRepeats ys × Apart xs ys)
NoRepeats-append [] ys = (λ h. (tt, h, Apart-nil ys), λ h. h.1)
NoRepeats-append (x ∷ xs) ys = (
  λ h.
      let one = (All-both (λ y. x ≢ y) xs ys).0 h.0 in
      let more = (NoRepeats-append xs ys).0 h.1 in
      ((one.0, more.0), more.1, (Apart-cons x xs ys).1 (one.1, more.2)),
  λ h.
      let apart = (Apart-cons x xs ys).0 h.2 in
      (
        (All-both (λ y. x ≢ y) xs ys).1 (h.0.0, apart.0),
        (NoRepeats-append xs ys).1 (h.0.1, h.1, apart.1),
      ),
)
