-- ===== src/Worker/Outcome/Counts.antt =====
-- What the counts say of the log.
use mathlib.Core.List.{append-nil, append_assoc}
use ufo_observation_command.Base.{
  ℕ, ◌+◌, ◌<◌, pos, inc64, two63, String, ◌==◌, ◌≡◌, sym, ap, ◌∙◌, List, [], ◌∷◌, ◌++◌, keep,
  length, arith, Bool-cases, inl, inr,
}
use ufo_observation_command.Worker.Outcome.{
  OutcomeRecord, OutcomeLog, append, list, count_from, count,
}

-- The log after some appends.
unfoldable pub appends : OutcomeLog → List OutcomeRecord → OutcomeLog
appends l [] = l
appends l (r ∷ rest) = appends (append r l) rest

abbrev pub of_outcome : String → List OutcomeRecord → List OutcomeRecord
of_outcome outcome = keep (λ r. r.outcome == outcome)

inc64-pos : (n : ℕ) → n + 1 < two63 → inc64 (pos n) ≡ pos (n + 1)
unfolding inc64
inc64-pos n h = ground arith

count_from_lem :
    (outcome : String) (n : ℕ) (rs : List OutcomeRecord)
    → n + length rs < two63
    → count_from outcome (pos n) rs ≡ pos (n + length (of_outcome outcome rs))
unfolding count_from
count_from_lem outcome n [] s = ap pos (omega arith)
count_from_lem outcome n (r ∷ rest) s = elim (Bool-cases (r.outcome == outcome)) [
  | inl t ↦ rw t (
      ap (λ k. count_from outcome k rest) (inc64-pos n (omega arith))
      ∙ count_from_lem outcome (n + 1) rest (omega arith)
      ∙ ap pos (omega arith))
  | inr t ↦ rw t (count_from_lem outcome n rest (omega arith))
]

list-appends : (l : OutcomeLog) (rs : List OutcomeRecord) → list (appends l rs) ≡ list l ++ rs
unfolding appends append list
list-appends l [] = sym (append-nil _)
list-appends l (r ∷ rest) = list-appends (append r l) rest ∙ append_assoc l.records (r ∷ []) rest

-- A log lists its records and then those that were appended, in their order; and the count of an
-- outcome is the number of listed records that have it, for fewer than 2^63 records.
pub appends_lem :
    (l : OutcomeLog) (rs : List OutcomeRecord) (outcome : String)
    → length (list (appends l rs)) < two63
    → (list (appends l rs) ≡ list l ++ rs)
      × (count (appends l rs) outcome ≡ pos (length (of_outcome outcome (list l ++ rs))))
unfolding count list
appends_lem l rs outcome s = (
  list-appends l rs,
  count_from_lem outcome 0 (appends l rs).records (omega (arith, s))
      ∙ ap pos (omega arith)
      ∙ ap (λ xs. pos (length (of_outcome outcome xs))) (list-appends l rs),
)
