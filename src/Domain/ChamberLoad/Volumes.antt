-- ===== src/Domain/ChamberLoad/Volumes.antt =====
-- internal/domain/link_policy.go: which loading plans ValidateChamberLoad accepts.
use ufo_observation_command.Base.{
  ℕ, ◌+◌, ◌<◌, ℤ, pos, negsuc, pos_part, ◌≤ℤ◌, ◌<ℤ◌, add64, int64, two63, String, trim_space,
  eq_iff, Bool, true, false, ◌≡◌, ◌≢◌, ◌↔◌, refl, sym, ap, ◌∙◌, List, [], ◌∷◌, map, All, ok,
  ok-injective, Result-cases, inl, inr, arith,
}
use ufo_observation_command.Domain.Distinct.{NoRepeats, Apart, Apart-cons, Apart-nil, any_iff}
use ufo_observation_command.Domain.ChamberLoad.{
  ChamberLoad, differs, check_load, check_loads, validate_chamber_load,
}

-- A named lot with a volume, of a material and a treatment that suit the cycle.
abbrev pub Suits : Bool → ChamberLoad → Type 0
Suits mode load =
    (trim_space load.lot_id ≢ "")
    × (pos 0 <ℤ load.volume_litres)
    × (load.material ≢ "wet")
    × (load.requires_anoxia ≡ mode)

abbrev pub lot_ids : List ChamberLoad → List String
lot_ids = map (λ load. load.lot_id)

-- The sum of the volumes above 0, with no bound.
abbrev pub volume : List ChamberLoad → ℕ
volume [] = 0
volume (load ∷ loads) = pos_part load.volume_litres + volume loads

differs_iff : (a b : Bool) → (differs a b ≡ false) ↔ (a ≡ b)
differs_iff true true = (λ h. refl, λ h. refl)
differs_iff true false = (λ h. absurd (ground arith), λ h. absurd (ground arith))
differs_iff false true = (λ h. absurd (ground arith), λ h. absurd (ground arith))
differs_iff false false = (λ h. refl, λ h. refl)

check_load_iff :
    (seen : List String) (mode : Bool) (load : ChamberLoad)
    → (check_load seen mode load ≡ ok tt) ↔ (Suits mode load × All (λ id. id ≢ load.lot_id) seen)
unfolding check_load
check_load_iff seen mode load = (
  λ h. (
    (
      ground (arith, eq_iff (trim_space load.lot_id) ""),
      ground arith,
      ground (arith, eq_iff load.material "wet"),
      (differs_iff load.requires_anoxia mode).0 (ground arith),
    ),
    (any_iff load.lot_id seen).0 (ground arith),
  ),
  λ h.
      let same = (differs_iff load.requires_anoxia mode).1 h.0.3 in
      let new = (any_iff load.lot_id seen).1 h.1 in
      let named = h.0.0 in
      let positive = h.0.1 in
      let dry = h.0.2 in
      ground (arith, eq_iff (trim_space load.lot_id) "", eq_iff load.material "wet"),
)

-- Below 2^63 a sum does not wrap around.
add64-pos : (m n : ℕ) → m + n < two63 → add64 (pos m) (pos n) ≡ pos (m + n)
unfolding add64 int64
add64-pos m n h = ground arith

-- A positive volume is its natural number.
positive_pos : (v : ℤ) → pos 0 <ℤ v → v ≡ pos (pos_part v)
positive_pos (pos n) h = refl
positive_pos (negsuc n) h = absurd (omega arith)

-- The running total after one more lot that suits.
next_total :
    (mode : Bool) (n : ℕ) (load : ChamberLoad) (rest : ℕ)
    → Suits mode load
    → n + (pos_part load.volume_litres + rest) < two63
    → add64 (pos n) load.volume_litres ≡ pos (n + pos_part load.volume_litres)
next_total mode n load rest good h =
    ap (add64 (pos n)) (positive_pos load.volume_litres good.1)
    ∙ add64-pos n (pos_part load.volume_litres) (omega arith)

check_loads_iff :
    (seen : List String) (mode : Bool) (n : ℕ) (loads : List ChamberLoad) (t : ℤ)
    → n + volume loads < two63
    → (check_loads seen mode (pos n) loads ≡ ok t) ↔ (
        All (Suits mode) loads
        × Apart seen (lot_ids loads)
        × NoRepeats (lot_ids loads)
        × (t ≡ pos (n + volume loads)))
unfolding check_loads
check_loads_iff seen mode n [] t h = (
  λ e. (tt, tt, tt, sym (ok-injective e) ∙ ap pos (omega arith)),
  λ e. ap ok (ap pos (omega arith) ∙ sym e.3),
)
check_loads_iff seen mode n (load ∷ loads) t h = (
  λ e.
      let (good, new) = (check_load_iff seen mode load).0 (ground arith) in
      let step = next_total mode n load (volume loads) good h in
      let rest =
        (check_loads_iff (load.lot_id ∷ seen) mode (n + pos_part load.volume_litres) loads t
            (omega arith)).0
          (rw (sym step) (ground arith)) in
      let apart = (Apart-cons load.lot_id seen (lot_ids loads)).0 rest.1 in
      ((good, rest.0), (new, apart.1), (apart.0, rest.2), rest.3 ∙ ap pos (omega arith)),
  λ e.
      let one = (check_load_iff seen mode load).1 (e.0.0, e.1.0) in
      let step = next_total mode n load (volume loads) e.0.0 h in
      let rest =
        (check_loads_iff (load.lot_id ∷ seen) mode (n + pos_part load.volume_litres) loads t
            (omega arith)).1
          (
            e.0.1,
            (Apart-cons load.lot_id seen (lot_ids loads)).1 (e.2.0, e.1.1),
            e.2.1,
            e.3 ∙ ap pos (omega arith),
          ) in
      rw (one, step) rest,
)

-- A plan that is accepted has run the loop to a total within the capacity.
accepted_total :
    (c : ℤ) (first : ChamberLoad) (rest : List ChamberLoad)
    → validate_chamber_load c (first ∷ rest) ≡ ok tt
    → (total : ℤ) × (check_loads [] first.requires_anoxia (pos 0) (first ∷ rest) ≡ ok total)
      × (total ≤ℤ c)
unfolding validate_chamber_load
accepted_total c first rest e =
    elim (Result-cases (check_loads [] first.requires_anoxia (pos 0) (first ∷ rest))) [
      | inl (f, run) ↦ absurd (ground arith)
      | inr (total, run) ↦ (total, run, ground arith)
    ]

-- There is a lot, and every lot suits the treatment of the first one.
abbrev pub SuitsFirst : List ChamberLoad → Type 0
SuitsFirst [] = ⊥
SuitsFirst (first ∷ rest) = All (Suits first.requires_anoxia) (first ∷ rest)

-- When the volumes above 0 add up to less than 2^63, a plan is accepted exactly when there is a lot,
-- every lot suits the treatment of the first one, no lot comes twice, and the volumes together are
-- within the chamber's capacity.
pub validate_chamber_load_iff :
    (capacity_litres : ℤ) (loads : List ChamberLoad)
    → volume loads < two63
    → (validate_chamber_load capacity_litres loads ≡ ok tt)
      ↔ (SuitsFirst loads × NoRepeats (lot_ids loads) × (pos (volume loads) ≤ℤ capacity_litres))
unfolding validate_chamber_load
validate_chamber_load_iff c [] h = (λ e. absurd (ground arith), λ e. absurd e.0)
validate_chamber_load_iff c (first ∷ rest) h = (
  λ e.
      let (total, run, within) = accepted_total c first rest e in
      let all =
        (check_loads_iff [] first.requires_anoxia 0 (first ∷ rest) total (omega arith)).0 run in
      (all.0, all.2, ground (arith, all.3, within)),
  λ e.
      let run =
        (check_loads_iff [] first.requires_anoxia 0 (first ∷ rest) (pos (0 + volume (first ∷ rest)))
            (omega arith)).1
          (e.0, Apart-nil (lot_ids (first ∷ rest)), e.1, refl) in
      rw run (ground (arith, e.0.0.1, e.2)),
)
