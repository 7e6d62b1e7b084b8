-- ===== src/Pagination/Bounds.antt =====
-- The bounds of a normalised window.
use ufo_observation_command.Base.{ℤ, pos, ◌≤ℤ◌, ◌≡◌, ◌↔◌, arith, subst, ap₂}
use ufo_observation_command.Pagination.{Query, max_limit, normalize}

-- An offset that is not negative, and a limit between 1 and the largest one.
abbrev pub IsInBounds : Query → Type 0
IsInBounds q = (pos 0 ≤ℤ q.offset) × (pos 1 ≤ℤ q.limit) × (q.limit ≤ℤ max_limit)

kept_offset : (offset limit : ℤ) → pos 0 ≤ℤ offset → (normalize offset limit).offset ≡ offset
unfolding normalize
kept_offset offset limit h = ground arith

kept_limit :
    (offset limit : ℤ)
    → pos 1 ≤ℤ limit
    → limit ≤ℤ max_limit
    → (normalize offset limit).limit ≡ limit
unfolding normalize
kept_limit offset limit h k = ground arith

-- A normalised window is in bounds, and a window is in bounds exactly when normalising it changes
-- nothing.
pub normalize_lem :
    (offset limit : ℤ)
    → IsInBounds (normalize offset limit)
      × (IsInBounds (record { offset = offset; limit = limit })
          ↔ (normalize offset limit ≡ record { offset = offset; limit = limit }))
unfolding normalize
normalize_lem offset limit =
    let bounded : IsInBounds (normalize offset limit) =
      (ground arith, ground arith, ground arith) in
    (
      bounded,
      (
        λ h.
            ap₂ (λ o l. record { offset = o; limit = l }) (kept_offset offset limit h.0)
              (kept_limit offset limit h.1 h.2),
        λ e. subst IsInBounds e bounded,
      ),
    )
