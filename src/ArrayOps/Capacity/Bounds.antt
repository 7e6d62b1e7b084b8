-- ===== src/ArrayOps/Capacity/Bounds.antt =====
-- The promise of `Capacity`: a key never has more reservations than its limit, and has as many as
-- were granted.
use ufo_observation_command.Base.{
  ℕ, ◌+◌, ◌-◌, ◌≤◌, ◌<◌, ℤ, pos, ◌≤ℤ◌, ◌<ℤ◌, inc64, two63, leb_ℤ, String, ◌==◌, ◌||◌, eq_iff, ◌≡◌,
  ◌≢◌, sym, ap, subst, ◌∙◌, ◌↔◌, Bool, true, false, List, [], ◌∷◌, All, if◌then◌else◌, get-put,
  get-put_self, string_key, succeeded, arith, Bool-cases, inl, inr,
}
use ufo_observation_command.ArrayOps.Capacity.{Capacity, used, reserve}

unfoldable pub run : Capacity → List (String × ℤ) → Capacity
run c [] = c
run c ((key, limit) ∷ rest) = run (reserve key limit c).1 rest

-- How many of the requests for a key were granted.
abbrev pub counts : Bool → ℕ
counts true = 1
counts false = 0

abbrev counted : String → String → Bool → ℕ
counted key asked granted = if asked == key then counts granted else 0

unfoldable pub grants : String → Capacity → List (String × ℤ) → ℕ
grants key c [] = 0
grants key c ((asked, limit) ∷ rest) =
    counted key asked (succeeded (reserve asked limit c).0)
    + grants key (reserve asked limit c).1 rest

-- The limits that are asked for a key, all at most `limit`.
abbrev pub Within : String → ℕ → String × ℤ → Type 0
Within key limit (asked, l) = asked ≡ key → l ≤ℤ pos limit

inc64-pos : (n : ℕ) → n < two63 - 1 → inc64 (pos n) ≡ pos (n + 1)
unfolding inc64
inc64-pos n h = ground arith

-- A reservation for the key itself, and one for another key.
reserve_same :
    (key : String) (l : ℤ) (limit n : ℕ) (c : Capacity)
    → limit < two63
    → used c key ≡ pos n
    → n ≤ limit
    → l ≤ℤ pos limit
    → (used (reserve key l c).1 key ≡ pos (n + counts (succeeded (reserve key l c).0)))
      × (n + counts (succeeded (reserve key l c).0) ≤ limit)
unfolding reserve
reserve_same key l limit n c s u b w = elim (Bool-cases (key == "" || leb_ℤ l (pos 0))) [
  | inl e ↦ (ground (arith, u), ground arith)
  | inr e ↦ elim (Bool-cases (leb_ℤ l (used c key))) [
    | inl f ↦ (ground (arith, u), ground arith)
    | inr f ↦ (
      ground (arith, u, get-put_self c.used key (inc64 (used c key)), inc64-pos n),
      ground (arith, u),
    )
  ]
]

reserve_other :
    (key asked : String) (l : ℤ) (c : Capacity)
    → asked ≢ key
    → used (reserve asked l c).1 key ≡ used c key
unfolding reserve used
reserve_other key asked l c d =
    ground (arith, get-put c.used asked (inc64 (used c asked)) key, eq_iff asked key)

reserve_step :
    (key asked : String) (l : ℤ) (limit n : ℕ) (c : Capacity)
    → limit < two63
    → used c key ≡ pos n
    → n ≤ limit
    → Within key limit (asked, l)
    → (used (reserve asked l c).1 key
        ≡ pos (n + counted key asked (succeeded (reserve asked l c).0)))
      × (n + counted key asked (succeeded (reserve asked l c).0) ≤ limit)
reserve_step key asked l limit n c s u b w = elim (Bool-cases (asked == key)) [
  | inl e ↦ rw e (
      subst (λ k. Counted k) (sym ((eq_iff asked key).0 e))
        (reserve_same key l limit n c s u b (w ((eq_iff asked key).0 e))))
  | inr e ↦ rw e (
    reserve_other key asked l c (ground (arith, eq_iff asked key)) ∙ u ∙ ap pos (omega arith),
    omega arith,
  )
]
  where
    Counted : String → Type 0
    Counted k =
        (used (reserve k l c).1 key ≡ pos (n + counts (succeeded (reserve k l c).0)))
        × (n + counts (succeeded (reserve k l c).0) ≤ limit)

-- From a count within its limit, whatever is asked for whatever keys: a key's count is what it was
-- plus the reservations granted for it, and stays within the limit.
pub run_bounded :
    (key : String) (limit n : ℕ) (c : Capacity) (rs : List (String × ℤ))
    → limit < two63
    → used c key ≡ pos n
    → n ≤ limit
    → All (Within key limit) rs
    → (used (run c rs) key ≡ pos (n + grants key c rs)) × (n + grants key c rs ≤ limit)
unfolding run grants
run_bounded key limit n c [] s u b w = (u ∙ ap pos (omega arith), omega arith)
run_bounded key limit n c ((asked, l) ∷ rest) s u b w =
    let (u', b') = reserve_step key asked l limit n c s u b w.0 in
    let (v, d) =
      run_bounded key limit (n + counted key asked (succeeded (reserve asked l c).0))
        (reserve asked l c).1 rest s u' b' w.1 in
    (v ∙ ap pos (omega arith), omega arith)

-- As long as a reservation may be granted it is: a key with room under a positive limit.
pub reserve_granted :
    (key : String) (l : ℤ) (c : Capacity)
    → (succeeded (reserve key l c).0 ≡ true) ↔ ((key ≢ "") × (pos 0 <ℤ l) × (used c key <ℤ l))
unfolding reserve
reserve_granted key l c = (
  λ h. (ground (arith, eq_iff key ""), ground arith, ground arith),
  λ h. ground (arith, eq_iff key "", h.0, h.1, h.2),
)
