-- ===== src/Telemetry/Stream/Await.antt =====
-- internal/telemetry/stream.go: the loop of AwaitComplete. While it waits, other calls of the
-- manager run; its `select` goes on when the channel that it took is closed, which is when the count
-- of closed channels has passed the one that it saw, or when the context is over.
use ufo_observation_command.Base.{
  ℕ, ltb, pos, ◌==ℤ◌, String, string_key, int_key, true, Option, none, some, List, [], ◌∷◌, length,
  map, get, ◌≡◌, refl, sym, ap, ◌∙◌, inl, inr, if◌then◌else◌, some-injective, Option-cases,
  Bool-cases, Error, Result, ok, err, arith,
}
use ufo_observation_command.Telemetry.Stream.{Manager, await_check}
use ufo_observation_command.Telemetry.Stream.History.{Call, run, run-changed}

-- What happens between two looks of the waiting call: calls of others, or the end of the context.
pub data Wait : Type 0 where
  calls : List Call → Wait
  context_ends : Error → Wait

module _ (digest_hex : List ℕ → String) where
  -- The next look of a call that waits for the channel that it saw: it wakes up when that is closed.
  unfoldable pub next_look : ℕ → String → Manager → Option ℕ
  unfolding await_check
  next_look seen key later = if ltb seen later.changed then await_check key later else some seen

  -- Waiting for the channel that was seen. A call that wakes up looks at once; at [] it still waits.
  unfoldable pub await_waiting : ℕ → String → Manager → List Wait → Option (Result (Unit {0}))
  unfolding next_look run
  await_waiting seen key m [] = none
  await_waiting seen key m (calls cs ∷ waits) =
      let later : Manager = run digest_hex m cs in
      elim (next_look seen key later) [
        | none ↦ some (ok tt)
        | some next ↦ await_waiting next key later waits
      ]
  await_waiting seen key m (context_ends e ∷ waits) = some (err e)

  unfoldable pub await_complete : String → Manager → List Wait → Option (Result (Unit {0}))
  unfolding await_check await_waiting
  await_complete key m waits = elim (await_check key m) [
    | none ↦ some (ok tt)
    | some seen ↦ await_waiting seen key m waits
  ]

  -- The manager after batches of calls.
  unfoldable pub run_batches : Manager → List (List Call) → Manager
  unfolding run
  run_batches m [] = m
  run_batches m (cs ∷ batches) = run_batches (run digest_hex m cs) batches

  -- A look that does not find the stream complete sees the present count.
  await_check-changed :
      (key : String) (m : Manager) (seen : ℕ) → await_check key m ≡ some seen → seen ≡ m.changed
  unfolding await_check
  await_check-changed key m seen h = elim (Option-cases (get m.streams key)) [
    | inl e ↦ some-injective seen m.changed (sym h ∙ rw (await_check, e) refl)
    | inr (s, e) ↦ elim (Bool-cases (pos (length s.segments) ==ℤ s.expected_segments)) [
      | inl c ↦ absurd (let p : await_check key m ≡ none = rw (await_check, e, c) refl in cc (p, h))
      | inr c ↦ some-injective seen m.changed (sym h ∙ rw (await_check, e, c) refl)
    ]
  ]

  -- A waiting call misses no look that could differ from its last.
  next_look_lem :
      (key : String) (m : Manager) (seen : ℕ) (cs : List Call)
      → await_check key m ≡ some seen
      → next_look seen key (run digest_hex m cs) ≡ await_check key (run digest_hex m cs)
  unfolding next_look
  next_look_lem key m seen cs look = elim (run-changed digest_hex m cs) [
    | inl same ↦
        let still : await_check key (run digest_hex m cs) ≡ some seen =
          ap (await_check key) same ∙ look in
        elim (Bool-cases (ltb seen (run digest_hex m cs).changed)) [
          | inl w ↦ rw (next_look, w) refl
          | inr w ↦ rw (next_look, w) (sym still)
        ]
    | inr more ↦
        let woken : ltb seen (run digest_hex m cs).changed ≡ true =
          ground (arith, await_check-changed key m seen look, more) in
        rw (next_look, woken) refl
  ]

  await_waiting-done :
      (key : String) (m : Manager) (seen : ℕ) (batches : List (List Call))
      → await_check key m ≡ some seen
      → await_check key (run_batches m batches) ≡ none
      → await_waiting seen key m (map calls batches) ≡ some (ok tt)
  unfolding await_waiting run_batches
  await_waiting-done key m seen [] look done = absurd (cc (look, done))
  await_waiting-done key m seen (cs ∷ batches) look done =
      let now = next_look_lem key m seen cs look in
      elim (Option-cases (await_check key (run digest_hex m cs))) [
        | inl e ↦ rw (await_waiting, now ∙ e) refl
        | inr (next, e) ↦
            rw (await_waiting, now ∙ e)
              (await_waiting-done key (run digest_hex m cs) next batches e done)
      ]

  -- Whatever calls run while an AwaitComplete waits, and however they are spread over its waits: when
  -- the stream is complete after them, it has returned nil. No closing of a channel is missed.
  pub await_complete_lem :
      (key : String) (m : Manager) (batches : List (List Call))
      → await_check key (run_batches m batches) ≡ none
      → await_complete key m (map calls batches) ≡ some (ok tt)
  unfolding await_complete
  await_complete_lem key m batches done = elim (Option-cases (await_check key m)) [
    | inl e ↦ rw (await_complete, e) refl
    | inr (seen, e) ↦ rw (await_complete, e) (await_waiting-done key m seen batches e done)
  ]
