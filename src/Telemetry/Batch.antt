-- ===== src/Telemetry/Batch.antt =====
-- internal/telemetry/coordination.go and runtime.go: the tracker of open resources, and `DecodeBatch`,
-- which decodes one input after the other under it. `decode` and the context's error are functions
-- of the world, whose type `W` is a parameter; `none` stands for a nil error. `decode` may also panic:
-- the source does not defer `release`, so that a panic leaves the resource of its input open.
pub mod Balance
use ufo_observation_command.Base.{
  ℕ, ℤ, pos, negsuc, zero, suc, add64, inc64, List, [], ◌∷◌, Option, none, some, Error,
}

pub record ResourceTracker : Type 0 where
  pub open_count : ℤ

abbrev pub new_resource_tracker : ResourceTracker
new_resource_tracker = record { open_count = pos 0 }

-- `Acquire`, and the function that it returns. The latter acts once; its only caller calls it once.
unfoldable pub acquire : ResourceTracker → ResourceTracker
acquire t = record { open_count = inc64 t.open_count }

-- `r.open--`
unfoldable pub release : ResourceTracker → ResourceTracker
release t = record { open_count = add64 t.open_count (negsuc 0) }

-- How a function of Go ends.
pub data Ending : Type 0 where
  returns : Option Error → Ending
  panics : Ending

module _ {W : Type 0} (ctx_err : W → Option Error) (decode : List ℕ → W → Ending × W) where
  unfoldable pub decode_batch : List (List ℕ) → ResourceTracker → W → Ending × ResourceTracker × W
  unfolding acquire release
  decode_batch [] t w = (returns none, t, w)
  decode_batch (input ∷ rest) t w = elim (ctx_err w) [
    | some e ↦ (returns (some e), t, w)
    | none ↦
        let held : ResourceTracker = acquire t in
        let (result, w1) = decode input w in
        let after : ResourceTracker = release held in
        elim result [
          | panics ↦ (panics, held, w1)
          | returns failed ↦ elim failed [
            | some e ↦ (returns (some e), after, w1)
            | none ↦ decode_batch rest after w1
          ]
        ]
  ]
