-- ===== src/TelemetryControl/Parts.antt =====
-- internal/service/telemetry_control.go: the parts of a control do not touch one another.
use ufo_observation_command.Base.{
  ℕ, ℤ, String, Option, some, List, [], ◌∷◌, Error, ◌≡◌, refl, ap, ◌∙◌, get, get-put_self,
  string_key, length, ok, none, Option-cases, inl, inr,
}
use ufo_observation_command.Telemetry.Types.{Stream, Record}
use ufo_observation_command.Telemetry.Stream.{sealed, concat_payloads, signal_locked}
use ufo_observation_command.Telemetry.Stream.Assembly.{indices}
use ufo_observation_command.Telemetry.Stream.Contract.{finalize-sealed}
use ufo_observation_command.Telemetry.Stream.Invariant.{ManagerIsValid}
use ufo_observation_command.Telemetry.Stream.History as Streams
use ufo_observation_command.Telemetry.Broadcast.{Action, step}
use ufo_observation_command.TelemetryControl.{
  TelemetryControl, open_telemetry, append_segment, finalize_stream, reserve_channel,
  acquire_worker, on_bus,
}

-- A call of the control that writes. Subscribe with its cancel function and Publish are the actions
-- they are made of, so that other calls can come between; one that has to wait changes nothing yet.
pub data Call : Type 0 where
  stream_call : Streams.Call → Call
  reserves : String → ℤ → Call
  acquires : String → ℤ → ℤ → Call
  bus_action : Action → Call

module _ (digest_hex : List ℕ → String) where
  unfoldable pub call_stream : Streams.Call → TelemetryControl → TelemetryControl
  unfolding open_telemetry append_segment finalize_stream
  call_stream (Streams.opens scope expected labels) c = (open_telemetry scope expected labels c).1
  call_stream (Streams.appends ctx_err key index digest payload) c =
      (append_segment ctx_err key index digest payload c).1
  call_stream (Streams.finalizes ctx_err key version checksum audit now) c =
      (finalize_stream digest_hex ctx_err key version checksum audit now c).1

  abbrev gone_on : Option TelemetryControl → TelemetryControl → TelemetryControl
  gone_on none c = c
  gone_on (some c') c = c'

  unfoldable pub call : Call → TelemetryControl → TelemetryControl
  unfolding call_stream reserve_channel acquire_worker on_bus
  call (stream_call s) c = call_stream s c
  call (reserves scope limit) c = (reserve_channel scope limit c).1
  call (acquires owner now ttl) c = (acquire_worker owner now ttl c).1
  call (bus_action action) c = gone_on (on_bus action c) c

  unfoldable pub calls : List Call → TelemetryControl → TelemetryControl
  unfolding call
  calls [] c = c
  calls (x ∷ xs) c = calls xs (call x c)

  -- The calls of one part among all calls.
  abbrev pub stream_calls : List Call → List Streams.Call
  stream_calls [] = []
  stream_calls (stream_call s ∷ xs) = s ∷ stream_calls xs
  stream_calls (reserves scope limit ∷ xs) = stream_calls xs
  stream_calls (acquires owner now ttl ∷ xs) = stream_calls xs
  stream_calls (bus_action action ∷ xs) = stream_calls xs

  call_stream-manager :
      (s : Streams.Call) (c : TelemetryControl)
      → (call_stream s c).manager ≡ Streams.step digest_hex c.manager s
  unfolding call_stream Streams.step
  call_stream-manager (Streams.opens scope expected labels) c = refl
  call_stream-manager (Streams.appends ctx_err key index digest payload) c = refl
  call_stream-manager (Streams.finalizes ctx_err key version checksum audit now) c = refl

  bus_action-manager :
      (action : Action) (c : TelemetryControl) → (call (bus_action action) c).manager ≡ c.manager
  unfolding call on_bus
  bus_action-manager action c = elim (Option-cases (step action c.bus)) [
    | inl e ↦ rw (e, call, on_bus) refl
    | inr (bus, e) ↦ rw (e, call, on_bus) refl
  ]

  -- The manager after any calls of a control is what the calls of streams alone make of it.
  pub calls-manager :
      (xs : List Call) (c : TelemetryControl)
      → (calls xs c).manager ≡ Streams.run digest_hex c.manager (stream_calls xs)
  unfolding calls Streams.run
  calls-manager [] c = refl
  calls-manager (stream_call s ∷ xs) c =
      calls-manager xs (call_stream s c)
      ∙ ap (λ m. Streams.run digest_hex m (stream_calls xs)) (call_stream-manager s c)
  calls-manager (reserves scope limit ∷ xs) c = calls-manager xs (reserve_channel scope limit c).1
  calls-manager (bus_action action ∷ xs) c =
      calls-manager xs (call (bus_action action) c)
      ∙ ap (λ m. Streams.run digest_hex m (stream_calls xs)) (bus_action-manager action c)
  calls-manager (acquires owner now ttl ∷ xs) c =
      calls-manager xs (acquire_worker owner now ttl c).1

  -- After a Finalize of a control whose manager is valid has returned a record, and any calls of the
  -- control on its streams, capacities, lease and broadcaster: the stream is there and sealed, its payloads in the order of their indices are those of
  -- the record, and the record's checksum is their digest.
  pub finalized_stays :
      (ctx_err : Option Error) (key : String) (version : ℤ) (checksum : String)
      (audit : Option (Record → Option Error)) (now : ℤ) (c : TelemetryControl) (r : Record)
      (xs : List Call)
      → ManagerIsValid c.manager
      → (finalize_stream digest_hex ctx_err key version checksum audit now c).0 ≡ ok r
      → (s : Stream) × (get
            (calls xs
              (finalize_stream digest_hex ctx_err key version checksum audit now
                c).1).manager.streams
            key
          ≡ some s)
        × (s.state ≡ "sealed")
        × (r.payload ≡ concat_payloads s.segments (indices 0 (length s.segments)))
        × (r.checksum ≡ digest_hex r.payload)
  unfolding finalize_stream signal_locked
  finalized_stays ctx_err key version checksum audit now c r xs valid e =
      let (s, found, v, n, payload, digest, given, after) =
        finalize-sealed digest_hex ctx_err key version checksum audit now c.manager valid e in
      let later = (finalize_stream digest_hex ctx_err key version checksum audit now c).1 in
      let there : get later.manager.streams key ≡ some (sealed s) =
        ap (λ m. get m.streams key) after ∙ get-put_self c.manager.streams key (sealed s) in
      (
        sealed s,
        ap (λ m. get m.streams key) (calls-manager xs later)
            ∙ Streams.sealed_forever digest_hex later.manager (stream_calls xs) key (sealed s) there
                refl,
        refl,
        payload,
        digest,
      )
