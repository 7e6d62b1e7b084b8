-- ===== src/Telemetry/Stream.antt =====
-- internal/telemetry/stream.go: the manager of streams. Each method is one critical section, so one
-- step of the state. `ctx_err` is what `ctx.Err()` returns at the start of the method, `none` for
-- nil; the manager's clock gives the argument `now`. SHA-256 in hexadecimal is the parameter
-- `digest_hex`, any function of the bytes.
pub mod Keys
pub mod Cases
pub mod Invariant
pub mod Assembly
pub mod History
pub mod Await
pub mod Contract
use ufo_observation_command.Base.{
  ℕ, ◌+◌, ℤ, pos, ltb_ℤ, leb_ℤ, ◌==ℤ◌, inc64, String, ◌==◌, trim_space, join_nul, Bool, true, false,
  not, ◌&&◌, ◌||◌, Option, none, some, List, [], ◌∷◌, ◌++◌, any, length, is_some, if◌then◌else◌,
  Dict, get, put, copy, string_key, int_key, Error, wrap, Result, ok, err, ◌>>=◌, Method,
}
use ufo_observation_command.Telemetry.Types.{
  Scope, Segment, Stream, Record, conflict_error, invalid_error,
}

-- `changed` counts how often the channel `m.changed` was closed and made anew: a waiter that read
-- the count `n` wakes up when the count is greater.
pub record Manager : Type 0 where
  pub streams : Dict String Stream
  pub changed : ℕ

abbrev pub new_manager : Manager
new_manager = record { streams = []; changed = 0 }

unfoldable pub stream_key : Scope → Result String
stream_key scope =
    let parts : List String =
      scope.tenant_id ∷ scope.mission_id ∷ scope.buoy_id ∷ scope.capture_id ∷ [] in
    if any (λ part. trim_space part == "") parts
    then err (invalid_error "stream scope is incomplete: %w")
    else ok (join_nul parts)

unfoldable pub clone_labels : Dict String String → Dict String String
unfolding copy
clone_labels value = copy value

-- Each segment's payload is copied too: in a model of values it is the payload.
unfoldable pub clone_stream : Stream → Stream
unfolding clone_labels copy
clone_stream value = record value {
  labels = clone_labels value.labels;
  segments = copy value.segments;
}

unfoldable pub signal_locked : Manager → Manager
signal_locked m = record m { changed = m.changed + 1 }

abbrev pub new_stream : String → Scope → ℤ → Dict String String → Stream
new_stream key scope expected labels = record {
  key = key;
  scope = scope;
  expected_segments = expected;
  segments = [];
  labels = clone_labels labels;
  state = "collecting";
  version = pos 1;
}

-- The critical section of `Open`.
open_at : Scope → ℤ → Dict String String → String → Method Manager Stream
unfolding clone_stream signal_locked
open_at scope expected labels key m =
    if is_some (get m.streams key)
    then (err (conflict_error "stream already exists: %w"), m)
    else let stream = new_stream key scope expected labels in
      (
        ok (clone_stream stream),
        signal_locked (record m { streams = put m.streams key (clone_stream stream) }),
      )

unfoldable pub open_stream : Scope → ℤ → Dict String String → Method Manager Stream
unfolding open_at
open_stream scope expected labels m = elim (stream_key scope) [
  | err e ↦ (err e, m)
  | ok key ↦
      if leb_ℤ expected (pos 0)
      then (err (invalid_error "expected segment count must be positive: %w"), m)
      else open_at scope expected labels key m
]

abbrev pub is_empty {ℓ} : {A : Type ℓ} → List A → Bool
is_empty [] = true
is_empty (x ∷ xs) = false

abbrev pub bad_segment : Stream → ℤ → String → List ℕ → Bool
bad_segment stream index digest payload =
    ltb_ℤ index (pos 0) || leb_ℤ stream.expected_segments index || digest == "" || is_empty payload

abbrev pub with_segment : Stream → Segment → Stream
with_segment stream segment = record stream {
  segments = put stream.segments segment.index segment;
  version = inc64 stream.version;
}

-- The writes of `Append`.
appended : String → Stream → Segment → Manager → Manager
unfolding signal_locked
appended key stream segment m =
    signal_locked (record m { streams = put m.streams key (with_segment stream segment) })

-- The rest of `Append`, once the stream is there and takes segments, by what stands at the index.
append_at : String → Stream → ℤ → String → List ℕ → Option Segment → Method Manager Bool
unfolding appended
append_at key stream index digest payload (some prior) m =
    if prior.digest == digest
    then (ok false, m)
    else (err (conflict_error "segment index has different content: %w"), m)
append_at key stream index digest payload none m =
    (ok true, appended key stream (record { index = index; digest = digest; payload = payload }) m)

append_found : String → ℤ → String → List ℕ → Option Stream → Method Manager Bool
unfolding append_at
append_found key index digest payload none m = (err (conflict_error "stream not found: %w"), m)
append_found key index digest payload (some stream) m =
    if not (stream.state == "collecting")
    then (err (conflict_error "sealed stream cannot accept segments: %w"), m)
    else if bad_segment stream index digest payload
    then (err (invalid_error "segment input is invalid: %w"), m)
    else append_at key stream index digest payload (get stream.segments index) m

unfoldable pub append : Option Error → String → ℤ → String → List ℕ → Method Manager Bool
unfolding append_found
append (some e) key index digest payload m = (err e, m)
append none key index digest payload m = append_found key index digest payload (get m.streams key) m

abbrev map_option {ℓ} : {A B : Type ℓ} → (A → B) → Option A → Option B
map_option f none = none
map_option f (some a) = some (f a)

unfoldable pub snapshot : Manager → String → Option Stream
snapshot m key = map_option clone_stream (get m.streams key)

-- `sort.Ints`.
insert_int : ℤ → List ℤ → List ℤ
insert_int i [] = i ∷ []
insert_int i (j ∷ rest) =
    let later = insert_int i rest in if leb_ℤ i j then i ∷ j ∷ rest else j ∷ later

unfoldable pub sort_ints : List ℤ → List ℤ
unfolding insert_int
sort_ints [] = []
sort_ints (i ∷ rest) = insert_int i (sort_ints rest)

abbrev pub keys {ℓ κ} : {K : Type ℓ} {V : Type κ} → Dict K V → List K
keys [] = []
keys ((a, v) ∷ m) = a ∷ keys m

-- `stream.Segments[index].Payload`: a missing segment has no bytes.
abbrev pub payload_at : Dict ℤ Segment → ℤ → List ℕ
payload_at segments index = elim (get segments index) [ none ↦ [] | some s ↦ s.payload ]

abbrev pub concat_payloads : Dict ℤ Segment → List ℤ → List ℕ
concat_payloads segments [] = []
concat_payloads segments (i ∷ rest) = payload_at segments i ++ concat_payloads segments rest

unfoldable pub assemble : Stream → List ℕ
unfolding sort_ints
assemble stream = concat_payloads stream.segments (sort_ints (keys stream.segments))

-- The stream that `Finalize` writes.
abbrev pub sealed : Stream → Stream
sealed stream = record stream { state = "sealed"; version = inc64 stream.version }

module _ (digest_hex : List ℕ → String) where
  abbrev pub record_of : String → Stream → ℤ → Record
  record_of key stream now = record {
    stream_key = key;
    checksum = digest_hex (assemble stream);
    payload = assemble stream;
    sealed_at = now;
  }

  seal : String → Stream → Record → Method Manager Record
  unfolding signal_locked
  seal key stream r m =
      (ok r, signal_locked (record m { streams = put m.streams key (sealed stream) }))

  -- The audit callback may be nil, and may refuse.
  unfoldable pub audited : Option (Record → Option Error) → Record → Option Error
  audited none r = none
  audited (some audit) r = audit r

  finalize_found :
      String
      → ℤ
      → String
      → Option (Record → Option Error)
      → ℤ
      → Option Stream
      → Method Manager Record
  unfolding seal audited
  finalize_found key expected_version checksum audit now none m =
      (err (conflict_error "stream cannot be finalized: %w"), m)
  finalize_found key expected_version checksum audit now (some stream) m =
      if not (stream.state == "collecting")
      then (err (conflict_error "stream cannot be finalized: %w"), m)
      else if not (stream.version ==ℤ expected_version)
      then (err (conflict_error "stream version changed: %w"), m)
      else if not (pos (length stream.segments) ==ℤ stream.expected_segments)
      then (err (conflict_error "stream still has missing segments: %w"), m)
      else if checksum == "" || not (checksum == digest_hex (assemble stream))
      then (err (conflict_error "stream checksum mismatch: %w"), m)
      else elim (audited audit (record_of key stream now)) [
        | some e ↦ (err (wrap "write seal audit: %w" e), m)
        | none ↦ seal key stream (record_of key stream now) m
      ]

  unfoldable pub finalize :
      Option Error
      → String
      → ℤ
      → String
      → Option (Record → Option Error)
      → ℤ
      → Method Manager Record
  unfolding finalize_found
  finalize (some e) key expected_version checksum audit now m = (err e, m)
  finalize none key expected_version checksum audit now m =
      finalize_found key expected_version checksum audit now (get m.streams key) m

-- The test of `AwaitComplete`, in its critical section: done, or the count to wait past.
unfoldable pub await_check : String → Manager → Option ℕ
await_check key m = elim (get m.streams key) [
  | none ↦ some m.changed
  | some stream ↦
      if pos (length stream.segments) ==ℤ stream.expected_segments then none else some m.changed
]
