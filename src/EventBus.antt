-- ===== src/EventBus.antt =====
-- core/pkg/eventbus/bus.go: the in-process event bus. Every method is cut into the steps that other
-- goroutines can come between: a critical section, a channel operation, the call of one handler. A call
-- of Publish is an entry of `publishes`, a topic's channel and worker stand in its `TopicState`, and a
-- pointer to either is its index. A step that is not enabled changes nothing: the goroutine waits.
pub mod Topics
pub mod Orderly
pub mod Senders
pub mod Closing
pub mod Drained
pub mod Progress
pub mod Returns
pub mod Moves
pub mod Inevitable
mod Tests
use watchkeepers.Prelude.{
  ℕ, zero, suc, ◌+◌, ◌-◌, ◌%◌, ◌^◌, String, Bool, true, false, not, ◌&&◌, Option, none, some, List,
  [], ◌∷◌, ◌++◌, ℤ, is_positive, pos_part, length, get_elem?, update_at, ltb, if◌then◌else◌, ◌==◌,
  string_eq, number_eq,
}
use watchkeepers.Go.Errors.{Error, sentinel, wrap, Result, ok, err}

abbrev pub err_closed : String
err_closed = "ErrClosed"

abbrev pub err_invalid_topic : String
err_invalid_topic = "ErrInvalidTopic"

-- `ctx` and `event` name the two values that are handed to the handlers.
pub record Envelope : Type 0 where
  pub ctx : ℕ
  pub event : ℕ

-- The goroutine of a topic: it waits at the channel, calls the rest of the handlers that it found, or has
-- returned.
pub data Worker : Type 0 where
  idle : Worker
  in_round : Envelope → List ℕ → Worker
  ended : Worker

-- The channel is what was ever sent on it and how much of it was taken out. A handler is its
-- subscription's id. `to_close` is whether Close has the channel on its list; `calls` is what was
-- called, `rounds` the envelopes taken out with the handlers found for each.
pub record TopicState : Type 0 where
  pub name : String
  pub sent : List Envelope
  pub received : ℕ
  pub ch_closed : Bool
  pub to_close : Bool
  pub subs : List ℕ
  pub worker : Worker
  pub calls : List (ℕ × Envelope)
  pub rounds : List (Envelope × List ℕ)

-- Where a call of Publish stands: past the first checks, in the wait group, at its first select, at its
-- second, or returned, with the topic that took its envelope when it was taken.
pub data Stage : Type 0 where
  checked : Stage
  registered : Stage
  sending : ℕ → Stage
  blocked : ℕ → Stage
  accepted : ℕ → Stage
  refused : Error → Stage

pub record Publishing : Type 0 where
  pub topic : String
  pub envelope : Envelope
  pub stage : Stage

-- Where Close stands: not called, the flag set and the channels listed, the done channel closed, the
-- publishers gone, all channels closed, returned.
pub data Phase : Type 0 where
  opened : Phase
  marked : Phase
  signalled : Phase
  closing : Phase
  waiting : Phase
  finished : Phase

-- `in_flight` is `publishWG`; `panicked` records a send on a closed channel or a second close of one.
pub record Bus : Type 0 where
  pub buffer_size : ℕ
  pub closed : Bool
  pub done : Bool
  pub topics : List TopicState
  pub publishes : List Publishing
  pub in_flight : ℕ
  pub next_sub_id : ℕ
  pub phase : Phase
  pub panicked : Bool

default_topic_buffer_size : ℕ
default_topic_buffer_size = 64

-- With `WithTopicBufferSize(n)`: a size that is not positive is ignored.
unfoldable pub new_bus : ℤ → Bus
unfolding default_topic_buffer_size
new_bus n = record {
  buffer_size = if is_positive n then pos_part n else default_topic_buffer_size;
  closed = false;
  done = false;
  topics = [];
  publishes = [];
  in_flight = 0;
  next_sub_id = 0;
  phase = opened;
  panicked = false;
}

pub new_topic : String → TopicState
new_topic topic = record {
  name = topic;
  sent = [];
  received = 0;
  ch_closed = false;
  to_close = false;
  subs = [];
  worker = idle;
  calls = [];
  rounds = [];
}

-- The index of a topic in the map, or where it would be.
pub find_topic : String → List TopicState → Option ℕ
find_topic topic [] = none
find_topic topic (t ∷ ts) =
    let rest = find_topic topic ts in
    if t.name == topic then some 0 else elim rest [ none ↦ none | some i ↦ some (suc i) ]

pub set_stage : ℕ → Stage → Bus → Bus
set_stage p s b = record b { publishes = update_at p (λ x. record x { stage = s }) b.publishes }

-- The deferred `publishWG.Done()` with a return.
pub leave : ℕ → Stage → Bus → Bus
unfolding set_stage
leave p s b = record (set_stage p s b) { in_flight = b.in_flight - 1 }

-- The checks before the first lock.
pub start_stage : String → Bool → Stage
start_stage topic closed =
    if topic == ""
    then refused (sentinel err_invalid_topic)
    else if closed
    then refused (sentinel err_closed)
    else checked

unfoldable pub publish_start : String → Envelope → Bus → Bus
unfolding start_stage
publish_start topic env b = record b {
  publishes =
      b.publishes
      ++ record { topic = topic; envelope = env; stage = start_stage topic b.closed } ∷ [];
}

-- The critical section that joins the wait group.
pub publish_register : ℕ → Bus → Bus
unfolding set_stage
publish_register p b =
    if b.closed
    then set_stage p (refused (sentinel err_closed)) b
    else record (set_stage p registered b) { in_flight = b.in_flight + 1 }

-- `getOrCreateTopic`.
pub get_or_create_topic : ℕ → String → Bus → Bus
unfolding find_topic new_topic leave set_stage
get_or_create_topic p topic b = elim (find_topic topic b.topics) [
  | some i ↦ set_stage p (sending i) b
  | none ↦
      if b.closed
      then leave p (refused (sentinel err_closed)) b
      else record (set_stage p (sending (length b.topics)) b) {
        topics = b.topics ++ new_topic topic ∷ [];
      }
]

-- An attempt to send: `full` is the stage in which the call goes on when there is no room.
pub try_send : ℕ → ℕ → Envelope → Stage → TopicState → Bus → Bus
unfolding leave set_stage
try_send p i env full t b =
    if t.ch_closed
    then record b { panicked = true }
    else if ltb (length t.sent) (t.received + b.buffer_size)
    then record (leave p (accepted i) b) {
      topics = update_at i (λ x. record x { sent = x.sent ++ env ∷ [] }) b.topics;
    }
    else set_stage p full b

pub send_at : ℕ → ℕ → Envelope → Stage → Bus → Bus
unfolding try_send
send_at p i env full b = elim (get_elem? b.topics i) [
  | none ↦ b
  | some t ↦ try_send p i env full t b
]

-- What a call of Publish does next. At its second select a `cancelled` context or the closed bus can be
-- chosen; `prefer` says which of the ready cases the runtime takes.
pub data Choice : Type 0 where
  take_send : Choice
  take_cancel : Error → Choice
  take_done : Choice

pub publish_from : Stage → Choice → ℕ → Publishing → Bus → Bus
unfolding publish_register get_or_create_topic send_at leave
publish_from checked c p x b = publish_register p b
publish_from registered c p x b = get_or_create_topic p x.topic b
publish_from (sending i) c p x b = send_at p i x.envelope (blocked i) b
publish_from (blocked i) take_send p x b = send_at p i x.envelope (blocked i) b
publish_from (blocked i) (take_cancel e) p x b =
    leave p (refused (wrap "eventbus: publish: %w" e)) b
publish_from (blocked i) take_done p x b =
    if b.done then leave p (refused (sentinel err_closed)) b else b
publish_from (accepted i) c p x b = b
publish_from (refused e) c p x b = b

unfoldable pub publish_step : ℕ → Choice → Bus → Bus
unfolding publish_from
publish_step p c b = elim (get_elem? b.publishes p) [
  | none ↦ b
  | some x ↦ publish_from x.stage c p x b
]

pub add_sub : ℕ → ℕ → Bus → Bus
add_sub i id b = record b {
  topics = update_at i (λ t. record t { subs = t.subs ++ id ∷ [] }) b.topics;
  next_sub_id = id;
}

-- `Subscribe`: the second lock is taken under the first, so no step comes between. The id is the counter
-- after its increment.
unfoldable pub subscribe_topic : String → Bus → Result ℕ × Bus
unfolding find_topic new_topic add_sub
subscribe_topic topic b =
    let id = (b.next_sub_id + 1) % 2 ^ 64 in
    if topic == ""
    then (err (sentinel err_invalid_topic), b)
    else if b.closed
    then (err (sentinel err_closed), b)
    else elim (find_topic topic b.topics) [
      | some i ↦ (ok id, add_sub i id b)
      | none ↦ (
        ok id,
        add_sub (length b.topics) id (record b { topics = b.topics ++ new_topic topic ∷ [] }),
      )
    ]

pub without_sub : ℕ → List ℕ → List ℕ
without_sub id [] = []
without_sub id (x ∷ xs) = let rest = without_sub id xs in if x == id then rest else x ∷ rest

-- The callback of a subscription to the topic at an index; a second call changes nothing more.
unfoldable pub unsubscribe : ℕ → ℕ → Bus → Bus
unfolding without_sub
unsubscribe i id b = record b {
  topics = update_at i (λ t. record t { subs = without_sub id t.subs }) b.topics;
}

-- What the goroutine of a topic does next.
pub work : Worker → TopicState → TopicState
work idle t = elim (get_elem? t.sent t.received) [
  | some env ↦ record t {
    received = t.received + 1;
    worker = in_round env t.subs;
    rounds = t.rounds ++ (env, t.subs) ∷ [];
  }
  | none ↦ if t.ch_closed then record t { worker = ended } else t
]
work (in_round env []) t = record t { worker = idle }
work (in_round env (h ∷ hs)) t = record t {
  worker = in_round env hs;
  calls = t.calls ++ (h, env) ∷ [];
}
work ended t = t

unfoldable pub run_topic : ℕ → Bus → Bus
unfolding work
run_topic i b = record b { topics = update_at i (λ t. work t.worker t) b.topics }

pub no_one_listed : List TopicState → Bool
no_one_listed [] = true
no_one_listed (t ∷ ts) = not t.to_close && no_one_listed ts

pub worker_ended : Worker → Bool
worker_ended idle = false
worker_ended (in_round env hs) = false
worker_ended ended = true

pub all_ended : List TopicState → Bool
unfolding worker_ended
all_ended [] = true
all_ended (t ∷ ts) = worker_ended t.worker && all_ended ts

pub list_all : List TopicState → List TopicState
list_all [] = []
list_all (t ∷ ts) = record t { to_close = true } ∷ list_all ts

-- What the one call of Close that runs does next.
pub close_from : Phase → Bus → Bus
unfolding no_one_listed all_ended list_all
close_from opened b = record b { closed = true; topics = list_all b.topics; phase = marked }
close_from marked b = record b { done = true; phase = signalled }
close_from signalled b = if b.in_flight == 0 then record b { phase = closing } else b
close_from closing b = if no_one_listed b.topics then record b { phase = waiting } else b
close_from waiting b = if all_ended b.topics then record b { phase = finished } else b
close_from finished b = b

unfoldable pub close_step : Bus → Bus
unfolding close_from
close_step b = close_from b.phase b

pub close_at : Phase → ℕ → Option TopicState → Bus → Bus
close_at closing i (some t) b =
    if t.to_close
    then record b {
      topics = update_at i (λ x. record x { to_close = false; ch_closed = true }) b.topics;
      panicked = if t.ch_closed then true else b.panicked;
    }
    else b
close_at closing i none b = b
close_at opened i t b = b
close_at marked i t b = b
close_at signalled i t b = b
close_at waiting i t b = b
close_at finished i t b = b

-- One turn of Close's loop over the channels that it listed, in the order of the indices given.
unfoldable pub close_channel : ℕ → Bus → Bus
unfolding close_at
close_channel i b = close_at b.phase i (get_elem? b.topics i) b

pub data BusOp : Type 0 where
  start_op : String → Envelope → BusOp
  publish_op : ℕ → Choice → BusOp
  subscribe_op : String → BusOp
  unsubscribe_op : ℕ → ℕ → BusOp
  work_op : ℕ → BusOp
  close_op : BusOp
  close_channel_op : ℕ → BusOp

unfoldable pub bus_op : BusOp → Bus → Bus
unfolding publish_start publish_step subscribe_topic unsubscribe run_topic close_step close_channel
bus_op (start_op topic env) b = publish_start topic env b
bus_op (publish_op p c) b = publish_step p c b
bus_op (subscribe_op topic) b = (subscribe_topic topic b).1
bus_op (unsubscribe_op i id) b = unsubscribe i id b
bus_op (work_op i) b = run_topic i b
bus_op close_op b = close_step b
bus_op (close_channel_op i) b = close_channel i b

unfoldable pub bus_ops : List BusOp → Bus → Bus
unfolding bus_op
bus_ops [] b = b
bus_ops (o ∷ os) b = bus_ops os (bus_op o b)
