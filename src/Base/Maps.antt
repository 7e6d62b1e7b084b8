-- ===== src/Base/Maps.antt =====
-- Go maps: association lists with one entry for a key. The order of the list stands for the
-- order in which `range` meets the entries, which Go leaves open.
use Prim.Native.Nat.{◌+◌}
use Prim.Native.String.{String}
use mathlib.Core.List.{append-nil, ◌++◌}
use mathlib.Core.Path.{ap, ◌∙◌, ◌≡◌, refl, subst, sym}
use mathlib.Core.Logic.{◌≢◌, ◌↔◌, inl, inr}
use mathlib.Core.Bool.{Bool, true}
use mathlib.Core.Option.{Option, none, some}
use mathlib.Core.List.{List, [], ◌∷◌}
use native.Mathlib.Omega.{arith}
use text.Mathlib.Text.{◌==◌}
use text.Mathlib.TextEquality.{eq_iff}
use ufo_observation_command.Base.Tests.{if◌then◌else◌, Bool-cases}
use ufo_observation_command.Base.Int.{ℤ, ◌==ℤ◌, ==ℤ_iff}
use ufo_observation_command.Base.Lists.{length, All}

-- A type of keys: its `==`.
pub record Key {ℓ} (K : Type ℓ) : Type ℓ where
  pub beq : K → K → Bool
  pub beq_iff : (a b : K) → (beq a b ≡ true) ↔ (a ≡ b)

instance abbrev pub string_key : Key String
string_key = record { beq = ◌==◌; beq_iff = eq_iff }

instance abbrev pub int_key : Key ℤ
int_key = record { beq = ◌==ℤ◌; beq_iff = ==ℤ_iff }

abbrev pub Dict {ℓ κ} : Type ℓ → Type κ → Type (ℓ ⊔ κ)
Dict K V = List (K × V)

module _ {ℓ κ} {K : Type ℓ} {V : Type κ} ⦃k : Key K⦄ where
  -- `v, ok := m[key]`.
  unfoldable pub get : Dict K V → K → Option V
  get [] a = none
  get ((b, v) ∷ m) a = if k.beq b a then some v else get m a

  -- `m[key] = v`.
  unfoldable pub put : Dict K V → K → V → Dict K V
  put [] a v = (a, v) ∷ []
  put ((b, w) ∷ m) a v = let rest = put m a v in if k.beq b a then (b, v) ∷ m else (b, w) ∷ rest

  -- The loop `for key, value := range m { copied[key] = value }`.
  copy_into : Dict K V → Dict K V → Dict K V
  copy_into copied [] = copied
  copy_into copied ((a, v) ∷ m) = copy_into (put copied a v) m

  -- A map copied entry by entry into a new map.
  unfoldable pub copy : Dict K V → Dict K V
  unfolding copy_into
  copy m = copy_into [] m

  pub get-put :
      (m : Dict K V) (a : K) (v : V) (b : K)
      → get (put m a v) b ≡ (if k.beq a b then some v else get m b)
  unfolding get put
  get-put [] a v b = refl
  get-put ((c, w) ∷ m) a v b =
      ground (arith, k.beq_iff c a, k.beq_iff c b, k.beq_iff a b, get-put m a v b)

  pub get-put_self : (m : Dict K V) (a : K) (v : V) → get (put m a v) a ≡ some v
  get-put_self m a v = ground (arith, get-put m a v a, k.beq_iff a a)

  pub get-put_ne : (m : Dict K V) (a : K) (v : V) (b : K) → a ≢ b → get (put m a v) b ≡ get m b
  get-put_ne m a v b h = ground (arith, get-put m a v b, k.beq_iff a b)

  -- A new key adds one entry.
  pub length-put_new :
      (m : Dict K V) (a : K) (v : V) → get m a ≡ none → length (put m a v) ≡ length m + 1
  unfolding get put
  length-put_new [] a v h = omega arith
  length-put_new ((b, w) ∷ m) a v h = ground (arith, length-put_new m a v)

-- No key stands twice: what every map of the sources satisfies.
module _ {ℓ κ} {K : Type ℓ} {V : Type κ} ⦃k : Key K⦄ where
  abbrev pub Distinct : Dict K V → Type κ
  Distinct [] = Unit
  Distinct ((a, v) ∷ m) = (get m a ≡ none) × Distinct m

  pub Distinct-put : (m : Dict K V) (a : K) (v : V) → Distinct m → Distinct (put m a v)
  unfolding get put
  Distinct-put [] a v h = (refl, tt)
  Distinct-put ((b, w) ∷ m) a v h =
      ground (arith, Distinct-put m a v, get-put m a v b, k.beq_iff b a, k.beq_iff a b)

  append_last : (m n : Dict K V) (a : K) (v : V) → (m ++ (a, v) ∷ []) ++ n ≡ m ++ (a, v) ∷ n
  append_last [] n a v = refl
  append_last (e ∷ m) n a v = ap (◌∷◌ e) (append_last m n a v)

  put-append : (m : Dict K V) (a : K) (v : V) → get m a ≡ none → put m a v ≡ m ++ (a, v) ∷ []
  unfolding get put
  put-append [] a v h = refl
  put-append ((b, w) ∷ m) a v h = ground (arith, put-append m a v)

  -- The keys of the one are not in the other.
  abbrev Apart : Dict K V → Dict K V → Type κ
  Apart m [] = Unit
  Apart m ((a, v) ∷ n) = (get m a ≡ none) × Apart m n

  Apart-put : (m n : Dict K V) (a : K) (v : V) → get n a ≡ none → Apart m n → Apart (put m a v) n
  unfolding get
  Apart-put m [] a v h d = tt
  Apart-put m ((b, w) ∷ n) a v h d =
      ground (arith, Apart-put m n a v, get-put m a v b, k.beq_iff b a, k.beq_iff a b)

  copy_into-append : (m n : Dict K V) → Distinct n → Apart m n → copy_into m n ≡ m ++ n
  unfolding copy_into
  copy_into-append m [] h d = sym (append-nil m)
  copy_into-append m ((a, v) ∷ n) h d =
      copy_into-append (put m a v) n h.1 (Apart-put m n a v h.0 d.1)
      ∙ ap (λ x. x ++ n) (put-append m a v d.0)
      ∙ append_last m n a v

  Apart-nil : (n : Dict K V) → Apart [] n
  unfolding get
  Apart-nil [] = tt
  Apart-nil ((a, v) ∷ n) = (refl, Apart-nil n)

  copy_into-Distinct : (m n : Dict K V) → Distinct m → Distinct (copy_into m n)
  unfolding copy_into
  copy_into-Distinct m [] h = h
  copy_into-Distinct m ((a, v) ∷ n) h = copy_into-Distinct (put m a v) n (Distinct-put m a v h)

  pub copy-Distinct : (m : Dict K V) → Distinct (copy m)
  unfolding copy
  copy-Distinct m = copy_into-Distinct [] m tt

  -- A copy has the entries of what it copies.
  pub copy_lem : (m : Dict K V) → Distinct m → copy m ≡ m
  unfolding copy
  copy_lem m h = copy_into-append [] m h (Apart-nil m)

-- What holds of every entry.
module _ {ℓ κ μ} {K : Type ℓ} {V : Type κ} ⦃k : Key K⦄ (P : K × V → Type μ) where
  pub All-put : (m : Dict K V) (a : K) (v : V) → P (a, v) → All P m → All P (put m a v)
  unfolding put
  All-put [] a v h hs = (h, hs)
  All-put ((b, w) ∷ m) a v h hs = elim (Bool-cases (k.beq b a)) [
    | inl e ↦ rw e (subst (λ c. P (c, v)) (sym ((k.beq_iff b a).0 e)) h, hs.1)
    | inr e ↦ rw e (hs.0, All-put m a v h hs.1)
  ]

  pub All-get : (m : Dict K V) (a : K) {v : V} → All P m → get m a ≡ some v → P (a, v)
  unfolding get
  All-get [] a hs e = cc
  All-get ((b, w) ∷ m) a {v} hs e = elim (Bool-cases (k.beq b a)) [
    | inl t ↦ subst P (cc ((k.beq_iff b a).0 t, rw t at e)) hs.0
    | inr t ↦ All-get m a hs.1 (rw t at e)
  ]
