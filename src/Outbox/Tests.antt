-- ===== src/Outbox/Tests.antt =====
-- The outbox theorems at concrete events: a bus whose first publish fails.
use watchkeepers.Prelude.{
  ℕ, zero, suc, ◌*◌, ◌^◌, ◌≤◌, ◌≡◌, ◌≢◌, ◌↔◌, refl, true, false, Option, none, some, [], ◌∷◌, arith,
  eq_iff, List, ◌⊎◌, Every,
}
use Prim.Native.Nat.{min}
use watchkeepers.Go.Errors.{Error, sentinel, wrap}
use watchkeepers.Outbox.Dedup.{LruDedup, new_lru_dedup, seen, remember}
use watchkeepers.Outbox.Dedup.Cache.{new-IsCache}
use watchkeepers.Outbox.Dedup.Window.{remember_all, window_lem}
use watchkeepers.Outbox.Backoff.{backoff_base, backoff_exact}
use watchkeepers.Outbox.Consumer.{
  Event, DeliveredEvent, Config, Surroundings, State, publish_with_retry, deliver, handle_event,
  handle_events,
}
use watchkeepers.Outbox.Consumer.Rounds.{Handled, handle_event_lem}
use watchkeepers.Outbox.Consumer.Once.{published_once}
use watchkeepers.Outbox.Lifecycle.{
  Step, start_op, stop_op, stop_step_op, loop_op, step, steps, new_lifecycle, start, loop_returns,
  stop_enter, stop_step, answered, err_already_stopped, err_not_started,
}
use watchkeepers.Outbox.Lifecycle.Answers.{IsAnswered, lifecycle_linear}

abbrev defaults : Config
defaults = record { max_publish_retries = 3; retry_initial_delay = 25; retry_max_delay = 1000 }

-- The state of the bus is the number of calls so far.
abbrev flaky_publish : DeliveredEvent → ℕ → Option Error × ℕ
flaky_publish ev zero = (some (sentinel "bus closed"), 1)
flaky_publish ev (suc n) = (none, suc (suc n))

abbrev flaky : Surroundings ℕ
flaky = record {
  ctx_err = λ w. none;
  sleep = λ d w. (none, w);
  publish = flaky_publish;
  jitter = λ d w. (d, w);
}

abbrev first : Event
first = record { id = "row-1"; event_type = "watch.created"; payload = 1 ∷ [] }

abbrev other : Event
other = record { id = "row-2"; event_type = "watch.created"; payload = [] }

abbrev again : Event
again = record { id = "row-1"; event_type = "watch.created"; payload = 1 ∷ [] }

abbrev cache : LruDedup
cache = new_lru_dedup 4

abbrev fresh : State ℕ
fresh = record { dedup = some cache; calls = []; log = []; env = 0 }

capacity : cache.size ≡ 4
unfolding new_lru_dedup
capacity = refl

unseen : seen "row-1" cache ≡ false
unfolding new_lru_dedup seen
unseen = refl

second_try : (publish_with_retry defaults flaky (deliver first) fresh).0 ≡ none
unfolding publish_with_retry backoff_base watchkeepers.Go.Errors.is_error
second_try = refl

row_1 : first.id ≢ ""
row_1 = λ e. cc ((eq_iff first.id "").1 e)

has_type : first.event_type ≢ ""
has_type = λ e. cc ((eq_iff first.event_type "").1 e)

published_once_example :
    let t =
      handle_events defaults flaky (other ∷ other ∷ []) (handle_event defaults flaky first fresh) in
    (handle_event defaults flaky again t).calls ≡ t.calls
published_once_example =
    published_once defaults flaky first fresh cache (other ∷ other ∷ []) again refl
      (new-IsCache 4 (omega arith)) row_1 has_type unseen second_try (omega (arith, capacity)) refl

handle_event_lem_example :
    Handled defaults flaky first fresh (handle_event defaults flaky first fresh)
handle_event_lem_example = handle_event_lem defaults flaky first fresh

backoff_exact_example : backoff_base 70 25000000 1000000000 ≡ min (25000000 * 2 ^ 70) 1000000000
backoff_exact_example = backoff_exact 70 25000000 1000000000 (omega arith) (omega arith)

window_lem_example :
    seen "row-1" (remember_all ("a" ∷ "b" ∷ "a" ∷ []) (remember "row-1" cache)) ≡ true
window_lem_example =
    window_lem "row-1" ("a" ∷ "b" ∷ "a" ∷ []) cache row_1 (new-IsCache 4 (omega arith)) unseen
      (omega (arith, capacity))

-- A Stop before the start, two after it, and a loop that fails in between: both get its error.
abbrev loop_error : Error
loop_error = wrap "outbox: stream: %w" (sentinel "io.EOF")

abbrev life : List Step
life =
    stop_op
    ∷ start_op
    ∷ start_op
    ∷ stop_op
    ∷ stop_op
    ∷ stop_step_op 1
    ∷ stop_step_op 2
    ∷ stop_step_op 1
    ∷ loop_op (some loop_error)
    ∷ stop_step_op 1
    ∷ stop_step_op 2
    ∷ []

both_answered :
    (steps life new_lifecycle).stops
    ≡ answered (some (sentinel err_not_started))
      ∷ answered (some loop_error)
      ∷ answered (some loop_error)
      ∷ []
unfolding steps step start loop_returns stop_enter stop_step new_lifecycle
both_answered = refl

lifecycle_linear_example :
    let s = steps life new_lifecycle in
    (s.launched ≤ 1)
    × (((start s).0 ≡ none) ↔ (s.launched ≡ 0))
    × ((s.cancelled ≡ false) ⊎ ((start s).0 ≡ some (sentinel err_already_stopped)))
    × Every (IsAnswered s) s.stops
lifecycle_linear_example = lifecycle_linear life
