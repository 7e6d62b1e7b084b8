-- ===== src/Telemetry/Tests.antt =====
-- Runs of internal/telemetry at concrete inputs, and the theorems about it at such inputs.
use ufo_observation_command.Base.{
  ◌++◌, ◌+ℤ◌, ℕ, pos, String, ◌≡◌, refl, true, false, none, some, List, [], ◌∷◌, length, get,
  string_key, int_key, ok, eq_iff, arith, if◌then◌else◌, ◌==ℕ◌, trim_space, join_nul, inc64, copy,
  put, map, add64, plain, succeeded, ◌+◌, ◌≤◌, ltb, ◌↔◌, ◌≢◌, Option, Error,
}
use ufo_observation_command.Telemetry.Consumer.{
  Received, given, closed, returned, run_worker, HandlesAll,
}
use ufo_observation_command.Telemetry.Consumer.{run_worker_iff}
use ufo_observation_command.Telemetry.Types.{Scope, Stream, Record}
use ufo_observation_command.Telemetry.Stream.{
  Manager, new_manager, stream_key, open_stream, append, finalize, sealed, concat_payloads,
  sort_ints, assemble, clone_stream, new_stream, audited, await_check,
}
use ufo_observation_command.Telemetry.Stream.Cases.{write}
use ufo_observation_command.Telemetry.Stream.Invariant.{ManagerIsValid, new_manager-IsValid}
use ufo_observation_command.Telemetry.Stream.Assembly.{indices}
use ufo_observation_command.Telemetry.Stream.History.{
  Call, opens, appends, run, run-IsValid, run-Extends, Later,
}
use ufo_observation_command.Telemetry.Broadcast.{
  Broadcaster, new_broadcaster, Action, subscribe, cancel, receive, publish, send, finish,
  run as run_actions,
}
use ufo_observation_command.Telemetry.Broadcast.Invariant.{wanted, contents, owed}
use ufo_observation_command.Telemetry.Broadcast.Order.{subscriber_order}
use ufo_observation_command.Telemetry.Stream.Await.{
  calls, await_complete, await_complete_lem, run_batches,
}
use ufo_observation_command.Telemetry.Stream.Contract.{finalize-sealed, finalize_succeeds}
use ufo_observation_command.Telemetry.Stream.Keys.{ScopeNoNul, stream_key-injective}
use ufo_observation_command.Telemetry.Lease.{new_fence_lease, acquire, commit}
use ufo_observation_command.Telemetry.Lease.Fencing.{run as run_lease, grants, stale_commit_fails}
use ufo_observation_command.Telemetry.Delivery.{Sink, deliver}
use ufo_observation_command.Telemetry.Delivery.Attempts.{EndsAcknowledged, deliver_sound}
use ufo_observation_command.Telemetry.Batch.{Ending, returns, panics, ResourceTracker, decode_batch}
use ufo_observation_command.Telemetry.Batch.Balance.{decode_batch_lem}
use ufo_observation_command.Base.{Option, Error}

abbrev dive : Scope
dive = record { tenant_id = "t"; mission_id = "m"; buoy_id = "b"; capture_id = "c" }

abbrev dive_key : String
dive_key = "t\0m\0b\0c"

-- Two segments, the second one first.
abbrev script : List Call
script =
    opens dive (pos 2) []
    ∷ appends none dive_key (pos 1) "d1" (3 ∷ [])
    ∷ appends none dive_key (pos 0) "d0" (1 ∷ 2 ∷ [])
    ∷ []

abbrev hash : List ℕ → String
hash bytes = if length bytes ==ℕ 3 then "three" else "other"

collected : Manager
collected = run hash new_manager script

collected-IsValid : ManagerIsValid collected
unfolding collected
collected-IsValid = run-IsValid hash new_manager script new_manager-IsValid

run-IsValid_example : ManagerIsValid (run hash new_manager script)
run-IsValid_example = run-IsValid hash new_manager script new_manager-IsValid

dive_key_is : stream_key dive ≡ ok dive_key
unfolding stream_key trim_space join_nul
dive_key_is = refl

abbrev dive_record : Record
dive_record = record {
  stream_key = dive_key;
  checksum = "three";
  payload = 1 ∷ 2 ∷ 3 ∷ [];
  sealed_at = pos 7;
}

-- The payloads come in the order of the indices.
sealed_once :
    (finalize hash none dive_key (pos 3) "three" none (pos 7) collected).0 ≡ ok dive_record
unfolding collected run open_stream append finalize stream_key trim_space join_nul get put copy
    inc64 assemble sort_ints
sealed_once = refl

finalize-sealed_example :
    (s : Stream) × (get collected.streams dive_key ≡ some s)
    × (s.version ≡ pos 3)
    × (pos (length s.segments) ≡ s.expected_segments)
    × (dive_record.payload ≡ concat_payloads s.segments (indices 0 (length s.segments)))
    × (dive_record.checksum ≡ hash dive_record.payload)
    × (dive_record.checksum ≡ dive_record.checksum)
    × ((finalize hash none dive_key (pos 3) "three" none (pos 7) collected).1
        ≡ write dive_key (sealed s) collected)
finalize-sealed_example =
    finalize-sealed hash none dive_key (pos 3) "three" none (pos 7) collected {r = dive_record}
      collected-IsValid sealed_once

-- The stream before it is sealed.
full : Stream
full = elim (get collected.streams dive_key) [
  | none ↦ clone_stream (new_stream dive_key dive (pos 2) [])
  | some s ↦ s
]

full_found : get collected.streams dive_key ≡ some full
unfolding full collected run open_stream append stream_key trim_space join_nul get put copy inc64
full_found = refl

full_collects : full.state ≡ "collecting"
unfolding full collected run open_stream append stream_key trim_space join_nul get put copy inc64
full_collects = refl

full_complete : pos (length full.segments) ≡ full.expected_segments
unfolding full collected run open_stream append stream_key trim_space join_nul get put copy inc64
full_complete = refl

abbrev named : List ℕ → String
named bytes = "digest"

finalize_succeeds_example :
    succeeded
      (finalize named none dive_key full.version
        (named (concat_payloads full.segments (indices 0 (length full.segments))))
        none
        (pos 7)
        collected).0
    ≡ true
unfolding audited
finalize_succeeds_example =
    finalize_succeeds named dive_key none (pos 7) collected full collected-IsValid full_found
      full_collects full_complete (ground (arith, eq_iff "digest" "")) (λ r. refl)

-- A stream that was opened is extended by what follows.
opened : Manager
opened = run hash new_manager (opens dive (pos 2) [] ∷ [])

fresh : Stream
fresh = clone_stream (new_stream dive_key dive (pos 2) [])

opened_fresh : get opened.streams dive_key ≡ some fresh
unfolding opened fresh run open_stream stream_key trim_space join_nul get put copy clone_stream
opened_fresh = refl

abbrev later : List Call
later =
    appends none dive_key (pos 1) "d1" (3 ∷ [])
    ∷ appends none dive_key (pos 1) "d2" (4 ∷ [])
    ∷ opens dive (pos 5) []
    ∷ []

run-Extends_example : Later hash (run hash opened later) dive_key fresh
run-Extends_example = run-Extends hash opened later dive_key fresh opened_fresh

opened-IsValid : ManagerIsValid opened
unfolding opened
opened-IsValid = run-IsValid hash new_manager (opens dive (pos 2) [] ∷ []) new_manager-IsValid

first_append : (append none dive_key (pos 1) "d1" (3 ∷ []) opened).0 ≡ ok true
unfolding opened run open_stream append stream_key trim_space join_nul get put copy clone_stream
first_append = refl

abbrev frozen : Stream
frozen = record {
  key = dive_key;
  scope = dive;
  expected_segments = pos 1;
  segments = [];
  labels = [];
  state = "sealed";
  version = pos 3;
}

abbrev sealed_manager : Manager
sealed_manager = record { streams = (dive_key, frozen) ∷ []; changed = 3 }

dive-NoNul : ScopeNoNul dive
dive-NoNul = omega arith

stream_key-injective_example : dive ≡ dive
stream_key-injective_example =
    stream_key-injective dive dive dive_key dive-NoNul dive-NoNul dive_key_is dive_key_is

-- Worker "a" gets token 1; after "b" has got token 2, it cannot commit.
stale_commit_fails_example :
    commit
      (run_lease (acquire "a" (pos 0) (pos 5) new_fence_lease).1 (("b", pos 9, pos 5) ∷ []))
      "a"
      1
      (pos 10)
    ≡ false
unfolding acquire grants ◌+ℤ◌
stale_commit_fails_example =
    stale_commit_fails "a" (pos 0) (pos 5) new_fence_lease 1 (("b", pos 9, pos 5) ∷ []) "a" (pos 10)
      refl (omega arith) (omega arith)

-- A sink that counts what it is asked for, and takes the second acknowledgement.
abbrev sink : Sink (ℕ × ℕ)
sink = record {
  persist = λ payload (p, a). (none, (p + 1, a));
  acknowledge = λ payload (p, a). (if a ==ℕ 1 then none else some (plain "busy"), (p, a + 1));
  wait_retry = λ w. (none, w);
}

delivered : (deliver sink (1 ∷ []) (pos 3) (0, 0)).0 ≡ none
unfolding deliver add64 inc64
delivered = refl

deliver_sound_example :
    ((sink.persist (1 ∷ []) (0, 0)).0 ≡ none)
    × EndsAcknowledged sink (1 ∷ []) (deliver sink (1 ∷ []) (pos 3) (0, 0)).1
deliver_sound_example = deliver_sound sink (1 ∷ []) (pos 3) (0, 0) delivered

-- A world that counts the inputs; the second one fails.
abbrev second_fails : List ℕ → ℕ → Ending × ℕ
second_fails input w = (returns (if w ==ℕ 1 then some (plain "bad input") else none), w + 1)

abbrev batch : Ending × ResourceTracker × ℕ
batch =
    decode_batch (λ w. none) second_fails ((1 ∷ []) ∷ (2 ∷ []) ∷ (3 ∷ []) ∷ [])
      (record { open_count = pos 4 }) 0

decode_batch_lem_example :
    (batch.0 ≢ panics → batch.1.open_count ≡ pos 4)
    × (batch.0 ≡ panics → batch.1.open_count ≡ pos (4 + 1))
    × (batch.2 ≤ 0 + 3)
    × (batch.0 ≡ returns none → batch.2 ≡ 0 + 3)
decode_batch_lem_example =
    decode_batch_lem (λ w. none) second_fails (λ w. w) (λ input w. refl)
      ((1 ∷ []) ∷ (2 ∷ []) ∷ (3 ∷ []) ∷ []) 4 0 (omega arith)

-- The first batch leaves the stream incomplete, the second one completes it.
abbrev batches_of_calls : List (List Call)
batches_of_calls =
    (opens dive (pos 2) [] ∷ appends none dive_key (pos 1) "d1" (3 ∷ []) ∷ [])
    ∷ (appends none dive_key (pos 0) "d0" (1 ∷ 2 ∷ []) ∷ [])
    ∷ []

await_complete_lem_example :
    await_complete hash dive_key new_manager (map calls batches_of_calls) ≡ some (ok tt)
unfolding run_batches run open_stream append await_check stream_key trim_space join_nul get put copy
    inc64
await_complete_lem_example = await_complete_lem hash dive_key new_manager batches_of_calls refl

-- The second subscriber comes after the first event and leaves before the third.
abbrev actions : List Action
actions =
    subscribe 2
    ∷ publish (1 ∷ []) (0 ∷ [])
    ∷ send
    ∷ finish
    ∷ subscribe 1
    ∷ publish (2 ∷ []) (0 ∷ 1 ∷ [])
    ∷ send
    ∷ receive 0
    ∷ send
    ∷ finish
    ∷ cancel 1
    ∷ publish (3 ∷ []) (0 ∷ [])
    ∷ []

abbrev broadcast : Broadcaster
unfolding run_actions
broadcast = elim (run_actions actions new_broadcaster) [ none ↦ new_broadcaster | some b ↦ b ]

subscriber_order_example :
    ((id : ℕ)
      → contents (broadcast.channels id) ++ owed broadcast.sending id ≡ wanted id 0 false actions)
    × ((event : List ℕ) (i : ℕ) (rest : List ℕ)
        → broadcast.sending ≡ some (event, i ∷ rest)
        → (broadcast.channels i).closed ≡ false)
unfolding broadcast run_actions
subscriber_order_example = subscriber_order actions broadcast (omega arith) refl

second_subscriber : contents (broadcast.channels 1) ≡ (2 ∷ []) ∷ []
unfolding broadcast run_actions
second_subscriber = refl

-- A handler that counts the payloads, under a context that is over after three of them.
abbrev over_after_three : ℕ → Option Error
over_after_three n = if ltb n 3 then none else some (Error.plain "context canceled")

abbrev counted : List ℕ → ℕ → Option Error × ℕ
counted payload n = (none, n + 1)

abbrev two_payloads : List Received
two_payloads = given (1 ∷ []) ∷ given [] ∷ closed ∷ []

run_worker_iff_example : (run_worker over_after_three counted two_payloads 0 ≡ returned none 2) ↔ (
    (payloads : List (List ℕ)) × (later : List Received) × (two_payloads
      ≡ map given payloads ++ (closed ∷ later))
    × HandlesAll over_after_three counted payloads 0 2)
run_worker_iff_example = run_worker_iff over_after_three counted two_payloads 0 2

worker_done : run_worker over_after_three counted two_payloads 0 ≡ returned none 2
unfolding run_worker
worker_done = refl
