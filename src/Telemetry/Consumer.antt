-- ===== src/Telemetry/Consumer.antt =====
-- internal/telemetry/coordination.go, `RunWorker`: payloads of a channel are handled until it is
-- closed. `handle` and the context's error are functions of the world, whose type `W` is a parameter;
-- `none` stands for a nil error.
use ufo_observation_command.Base.{
  ℕ, ◌↔◌, List, [], ◌∷◌, ◌++◌, map, Option, none, some, Error, ◌≡◌, refl, ap, ◌∙◌, Option-cases,
  inl, inr, arith,
}

-- What ends a `select`: the context is over with its error, the channel is closed or gives a payload.
pub data Received : Type 0 where
  cancelled : Error → Received
  closed : Received
  given : List ℕ → Received

-- What became of a worker: it returned, or it waits in its `select`.
pub data Progress (W : Type 0) : Type 0 where
  returned : Option Error → W → Progress W
  waiting : W → Progress W

module _ {W : Type 0} (ctx_err : W → Option Error) (handle : List ℕ → W → Option Error × W) where
  unfoldable pub run_worker : List Received → W → Progress W
  run_worker [] w = elim (ctx_err w) [ some e ↦ returned (some e) w | none ↦ waiting w ]
  run_worker (cancelled stopped ∷ later) w = elim (ctx_err w) [
    | some e ↦ returned (some e) w
    | none ↦ returned (some stopped) w
  ]
  run_worker (closed ∷ later) w = elim (ctx_err w) [
    | some e ↦ returned (some e) w
    | none ↦ returned none w
  ]
  run_worker (given payload ∷ later) w = elim (ctx_err w) [
    | some e ↦ returned (some e) w
    | none ↦ elim (handle payload w).0 [
      | some e ↦ returned (some e) (handle payload w).1
      | none ↦ run_worker later (handle payload w).1
    ]
  ]

  -- Each payload is handled, in the order of the list, without an error and under a live context.
  abbrev pub HandlesAll : List (List ℕ) → W → W → Type 0
  HandlesAll [] w w' = (ctx_err w ≡ none) × (w ≡ w')
  HandlesAll (payload ∷ payloads) w w' =
      (ctx_err w ≡ none)
      × ((handle payload w).0 ≡ none)
      × HandlesAll payloads (handle payload w).1 w'

  run_worker_sound :
      (received : List Received) (w w' : W)
      → run_worker received w ≡ returned none w'
      → (payloads : List (List ℕ)) × (later : List Received) × (received
          ≡ map given payloads ++ (closed ∷ later))
        × HandlesAll payloads w w'
  unfolding run_worker
  run_worker_sound [] w w' h = elim (Option-cases (ctx_err w)) [
    | inl live ↦ ground (arith, rw (run_worker, live) at h)
    | inr (e, over) ↦ ground (arith, rw (run_worker, over) at h)
  ]
  run_worker_sound (cancelled stopped ∷ later) w w' h = elim (Option-cases (ctx_err w)) [
    | inl live ↦ ground (arith, rw (run_worker, live) at h)
    | inr (e, over) ↦ ground (arith, rw (run_worker, over) at h)
  ]
  run_worker_sound (closed ∷ later) w w' h = elim (Option-cases (ctx_err w)) [
    | inl live ↦ ([], later, refl, (live, cc (rw (run_worker, live) at h)))
    | inr (e, over) ↦ ground (arith, rw (run_worker, over) at h)
  ]
  run_worker_sound (given payload ∷ received) w w' h = elim (Option-cases (ctx_err w)) [
    | inr (e, over) ↦ ground (arith, rw (run_worker, over) at h)
    | inl live ↦ elim (Option-cases (handle payload w).0) [
      | inr (e, failed) ↦ ground (arith, rw (run_worker, live, failed) at h)
      | inl handled ↦
          let (payloads, later, split, rest) =
            run_worker_sound received (handle payload w).1 w'
              (rw (run_worker, live, handled) at h) in
          (payload ∷ payloads, later, ap (λ l. given payload ∷ l) split, (live, handled, rest))
    ]
  ]

  run_worker_complete :
      (payloads : List (List ℕ)) (later : List Received) (w w' : W)
      → HandlesAll payloads w w'
      → run_worker (map given payloads ++ (closed ∷ later)) w ≡ returned none w'
  unfolding run_worker
  run_worker_complete [] later w w' (live, same) =
      rw (run_worker, live) (ap (λ w. returned none w) same)
  run_worker_complete (payload ∷ payloads) later w w' (live, handled, rest) =
      rw (run_worker, live, handled)
        (run_worker_complete payloads later (handle payload w).1 w' rest)

  -- RunWorker returns nil exactly when the channel is closed after some payloads and each of them is
  -- handled, in the order of the channel, without an error and under a live context.
  pub run_worker_iff :
      (received : List Received) (w w' : W)
      → (run_worker received w ≡ returned none w') ↔ (
          (payloads : List (List ℕ)) × (later : List Received) × (received
            ≡ map given payloads ++ (closed ∷ later))
          × HandlesAll payloads w w')
  run_worker_iff received w w' = (
    run_worker_sound received w w',
    λ (payloads, later, split, rest).
        ap (λ r. run_worker r w) split ∙ run_worker_complete payloads later w w' rest,
  )
