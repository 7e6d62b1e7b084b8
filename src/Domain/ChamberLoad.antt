-- ===== src/Domain/ChamberLoad.antt =====
-- internal/domain/link_policy.go: specimen lots that share a chamber in one cycle.
pub mod Volumes
use ufo_observation_command.Base.{
  ℤ, pos, leb_ℤ, ltb_ℤ, add64, String, ◌==◌, trim_space, Bool, true, false, ◌||◌, not, List, [],
  ◌∷◌, any, if◌then◌else◌, Error, wrap, sentinel, incompatible_load, Result, ok, err, ◌>>◌, ◌>>=◌,
  refuse,
}
use ufo_observation_command.Domain.Errors.{conflict_error}

pub record ChamberLoad : Type 0 where
  pub lot_id : String
  pub material : String
  pub volume_litres : ℤ
  pub requires_anoxia : Bool

-- `!=` on truth values.
abbrev pub differs : Bool → Bool → Bool
differs true b = not b
differs false b = b

-- The tests of one lot, over the lots that were seen.
unfoldable pub check_load : List String → Bool → ChamberLoad → Result (Unit {0})
check_load seen mode load = do
  refuse (trim_space load.lot_id == "" || leb_ℤ load.volume_litres (pos 0))
      (conflict_error "invalid specimen lot: %w")
  refuse (any (λ id. id == load.lot_id) seen) (conflict_error "duplicate specimen lot %s: %w")
  refuse (load.material == "wet" || differs load.requires_anoxia mode)
      (wrap "lot %s cannot share this cycle: %w" (sentinel incompatible_load))
  ok tt

-- The loop, over the lots that were seen and the total so far, an `int`.
unfoldable pub check_loads : List String → Bool → ℤ → List ChamberLoad → Result ℤ
unfolding check_load
check_loads seen mode total [] = ok total
check_loads seen mode total (load ∷ loads) =
    let more : Result ℤ =
      check_loads (load.lot_id ∷ seen) mode (add64 total load.volume_litres) loads in
    check_load seen mode load >> more

unfoldable pub validate_chamber_load : ℤ → List ChamberLoad → Result (Unit {0})
unfolding check_loads
validate_chamber_load capacity_litres [] = err (conflict_error "invalid chamber loading plan: %w")
validate_chamber_load capacity_litres (first ∷ rest) = do
  refuse (leb_ℤ capacity_litres (pos 0)) (conflict_error "invalid chamber loading plan: %w")
  total ← check_loads [] first.requires_anoxia (pos 0) (first ∷ rest)
  refuse (ltb_ℤ capacity_litres total)
      (conflict_error "planned volume %d exceeds chamber capacity %d: %w")
  ok tt
