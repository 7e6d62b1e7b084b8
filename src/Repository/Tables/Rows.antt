-- ===== src/Repository/Tables/Rows.antt =====
-- What an UPDATE of a row that succeeded has found and written.
use ufo_observation_command.Base.{
  String, string_key, Bool, true, false, some, Dict, get, put, ◌≡◌, refl, ap, ◌∙◌, if◌then◌else◌,
  Option-cases, Bool-cases, inl, inr, arith,
}
use ufo_observation_command.Repository.Tables.{update_row}

module _ {V : Type 0} (rows : Dict String V) (id : String) (test : V → Bool) (change : V → V) where
  pub update_found :
      (s : V)
      → get rows id ≡ some s
      → update_row rows id test change
        ≡ (if test s then (true, put rows id (change s)) else (false, rows))
  unfolding update_row
  update_found s e = rw (update_row, e) refl

  pub update_row-ok :
      (update_row rows id test change).0 ≡ true
      → (s : V) × (get rows id ≡ some s)
        × (test s ≡ true)
        × ((update_row rows id test change).1 ≡ put rows id (change s))
  unfolding update_row
  update_row-ok h = elim (Option-cases (get rows id)) [
    | inl e ↦ absurd (ground arith)
    | inr (s, e) ↦ elim (Bool-cases (test s)) [
      | inl t ↦ (s, e, t, ap (λ x. x.1) (update_found s e) ∙ rw t refl)
      | inr t ↦ absurd (ground arith)
    ]
  ]

  pub update_row_refused :
      (s : V) → get rows id ≡ some s → test s ≡ false → (update_row rows id test change).0 ≡ false
  unfolding update_row
  update_row_refused s e t = ap (λ x. x.0) (update_found s e) ∙ rw t refl
