-- ===== src/Telemetry/Broadcast.antt =====
-- internal/telemetry/coordination.go, `Broadcaster`: events that are published to the channels of all
-- subscribers. Every call is split where others can come between: Publish holds the mutex over its
-- sends, each of which waits for room in its channel or for a receiver.
pub mod Invariant
pub mod Order
use ufo_observation_command.Base.{
  ℕ, ◌+◌, ltb, ◌==ℕ◌, Bool, true, false, Option, none, some, List, [], ◌∷◌, ◌++◌, any, keep, not,
  length, if◌then◌else◌, ◌%◌, two64, ◌&&◌,
}

abbrev pub Payload : Type 0
Payload = List ℕ

-- A channel, with what was received from it so far.
pub record Channel : Type 0 where
  pub buffer : ℕ
  pub waiting : List Payload
  pub received : List Payload
  pub closed : Bool

-- `channels` has the channel of every identifier that was given. `sending` is the event of the
-- Publish that holds the mutex, with the subscribers that it still has to send to.
pub record Broadcaster : Type 0 where
  pub next : ℕ
  pub subscribers : List ℕ
  pub channels : ℕ → Channel
  pub sending : Option (Payload × List ℕ)

abbrev pub new_channel : ℕ → Channel
new_channel buffer = record { buffer = buffer; waiting = []; received = []; closed = false }

abbrev pub new_broadcaster : Broadcaster
new_broadcaster = record {
  next = 0;
  subscribers = [];
  channels = λ id. new_channel 0;
  sending = none;
}

abbrev pub member : List ℕ → ℕ → Bool
member ids id = any (λ i. i ==ℕ id) ids

abbrev pub set_channel : (ℕ → Channel) → ℕ → Channel → ℕ → Channel
set_channel channels id channel i = if id ==ℕ i then channel else channels i

abbrev pub remove : List ℕ → ℕ → List ℕ
remove ids id = keep (λ i. not (i ==ℕ id)) ids

-- `subscribe` has the size of the buffer, for which `make` wants a natural number. `publish` has the
-- order in which Go walks the map of subscribers, which may be any. `hand_over` is a send to a receiver
-- that waits, so that the channel is empty.
pub data Action : Type 0 where
  subscribe cancel receive : ℕ → Action
  publish : Payload → List ℕ → Action
  send hand_over finish : Action

-- Subscribe, with the identifier that comes next.
abbrev pub subscribe_before : ℕ → ℕ → Broadcaster → Broadcaster
subscribe_before next buffer b = record b {
  next = next;
  subscribers = b.next ∷ b.subscribers;
  channels = set_channel b.channels b.next (new_channel buffer);
}

-- An identifier is the 64 bits of an `int`, so that it wraps.
unfoldable pub subscribe_with : ℕ → Broadcaster → Broadcaster
subscribe_with buffer b = subscribe_before ((b.next + 1) % two64) buffer b

-- The function that Subscribe returns, run for the first time.
unfoldable pub cancel_once : ℕ → Broadcaster → Broadcaster
cancel_once id b = record b {
  subscribers = remove b.subscribers id;
  channels = set_channel b.channels id (record (b.channels id) { closed = true });
}

abbrev pub pushed : Payload → Channel → Channel
pushed event channel = record channel { waiting = channel.waiting ++ (event ∷ []) }

abbrev pub taken : Payload → Channel → Channel
taken event channel = record channel { received = channel.received ++ (event ∷ []) }

-- One send of Publish, when it can go on.
unfoldable pub send_next : Option (Payload × List ℕ) → Broadcaster → Option Broadcaster
send_next none b = none
send_next (some (event, [])) b = none
send_next (some (event, id ∷ rest)) b =
    if ltb (length (b.channels id).waiting) (b.channels id).buffer
    then some (record b {
      channels = set_channel b.channels id (pushed event (b.channels id));
      sending = some (event, rest);
    })
    else none

unfoldable pub hand_next :
    Option (Payload × List ℕ) → List Payload → Broadcaster → Option Broadcaster
hand_next none waiting b = none
hand_next (some (event, [])) waiting b = none
hand_next (some (event, id ∷ rest)) (x ∷ waiting) b = none
hand_next (some (event, id ∷ rest)) [] b = some (record b {
  channels = set_channel b.channels id (taken event (b.channels id));
  sending = some (event, rest);
})

-- The channel that is next in line.
abbrev pub next_waiting : Broadcaster → Option (Payload × List ℕ) → List Payload
next_waiting b none = []
next_waiting b (some (event, [])) = []
next_waiting b (some (event, id ∷ rest)) = (b.channels id).waiting

unfoldable pub finish_publish : Option (Payload × List ℕ) → Broadcaster → Option Broadcaster
finish_publish none b = none
finish_publish (some (event, [])) b = some (record b { sending = none })
finish_publish (some (event, id ∷ rest)) b = none

unfoldable pub receive_from : ℕ → List Payload → Broadcaster → Option Broadcaster
receive_from id [] b = none
receive_from id (event ∷ waiting) b = some (record b {
  channels = set_channel b.channels id (record (b.channels id) {
    waiting = waiting;
    received = (b.channels id).received ++ (event ∷ []);
  });
})

-- What waits for the mutex.
abbrev pub locked : {A : Type 0} → Option (Payload × List ℕ) → A → Option A
locked none b = some b
locked (some _) b = none

abbrev pub no_repeat : List ℕ → Bool
no_repeat [] = true
no_repeat (x ∷ xs) = not (member xs x) && no_repeat xs

abbrev pub all_in : List ℕ → List ℕ → Bool
all_in [] ys = true
all_in (x ∷ xs) ys = member ys x && all_in xs ys

-- An order of the subscribers: each of them once, and no other.
abbrev pub is_order : List ℕ → List ℕ → Bool
is_order order subscribers = no_repeat order && all_in order subscribers && all_in subscribers order

-- `none` where the action has to wait, and for a Publish in what is no order of the subscribers.
unfoldable pub step : Action → Broadcaster → Option Broadcaster
unfolding subscribe_with cancel_once send_next hand_next finish_publish receive_from
step (subscribe buffer) b = locked b.sending (subscribe_with buffer b)
step (cancel id) b = if member b.subscribers id then locked b.sending (cancel_once id b) else some b
step (publish event order) b =
    if is_order order b.subscribers
    then locked b.sending (record b { sending = some (event, order) })
    else none
step send b = send_next b.sending b
step hand_over b = hand_next b.sending (next_waiting b b.sending) b
step finish b = finish_publish b.sending b
step (receive id) b = receive_from id (b.channels id).waiting b

unfoldable pub run : List Action → Broadcaster → Option Broadcaster
unfolding step
run [] b = some b
run (action ∷ actions) b = elim (step action b) [ none ↦ none | some b' ↦ run actions b' ]
