-- ===== src/Outbox/Lifecycle.antt =====
-- core/pkg/outbox/consumer.go: Start and Stop, cut into the steps that other goroutines can come
-- between. A call of Stop is an entry of `stops`. The goroutine of the loop is counted when it is
-- launched; what it does is `run` of Outbox/Consumer, whose error is handed to `loop_returns`.
pub mod Answers
pub mod Returns
use watchkeepers.Prelude.{
  ℕ, ◌+◌, Bool, true, false, Option, none, some, List, [], ◌∷◌, ◌++◌, get_elem?, update_at,
  if◌then◌else◌, ◌==◌, number_eq, String,
}
use watchkeepers.Go.Errors.{Error, sentinel}

abbrev pub err_already_started : String
err_already_started = "ErrAlreadyStarted"

abbrev pub err_already_stopped : String
err_already_stopped = "ErrAlreadyStopped"

abbrev pub err_not_started : String
err_not_started = "ErrNotStarted"

pub data ConsumerState : Type 0 where
  not_started started stopped : ConsumerState

-- `sync.Once`: not called, its function running, its function returned.
pub data Once : Type 0 where
  fresh running over : Once

-- Where a call of Stop stands: past the critical section, in the function of the once with the context
-- cancelled, or returned.
pub data Caller : Type 0 where
  entered : Caller
  draining : Caller
  answered : Option Error → Caller

-- `launched` counts the goroutines, `cancelled` says whether their context is, and `done` whether
-- `doneCh` is closed.
pub record Lifecycle : Type 0 where
  pub state : ConsumerState
  pub launched : ℕ
  pub cancelled : Bool
  pub done : Bool
  pub once : Once
  pub stop_err : Option Error
  pub stops : List Caller

unfoldable pub new_lifecycle : Lifecycle
new_lifecycle = record {
  state = not_started;
  launched = 0;
  cancelled = false;
  done = false;
  once = fresh;
  stop_err = none;
  stops = [];
}

pub start_from : ConsumerState → Lifecycle → Option Error × Lifecycle
start_from started s = (some (sentinel err_already_started), s)
start_from stopped s = (some (sentinel err_already_stopped), s)
start_from not_started s = (none, record s { state = started; launched = s.launched + 1 })

unfoldable pub start : Lifecycle → Option Error × Lifecycle
unfolding start_from
start s = start_from s.state s

-- The goroutine returns with the error that `run` gives: `stopErr` is written, then `doneCh` closed.
unfoldable pub loop_returns : Option Error → Lifecycle → Lifecycle
loop_returns e s =
    if s.launched == 0 then s else if s.done then s else record s { done = true; stop_err = e }

-- The critical section of Stop.
pub enter_from : ConsumerState → Lifecycle → Lifecycle
enter_from not_started s = record s {
  stops = s.stops ++ answered (some (sentinel err_not_started)) ∷ [];
}
enter_from started s = record s { state = stopped; stops = s.stops ++ entered ∷ [] }
enter_from stopped s = record s { state = stopped; stops = s.stops ++ entered ∷ [] }

unfoldable pub stop_enter : Lifecycle → Lifecycle
unfolding enter_from
stop_enter s = enter_from s.state s

-- `stopOnce.Do`: the first caller cancels the context, the others wait until its function has returned.
pub do_once : Once → ℕ → Lifecycle → Lifecycle
do_once fresh i s = record s {
  cancelled = true;
  once = running;
  stops = update_at i (λ c. draining) s.stops;
}
do_once running i s = s
do_once over i s = record s { stops = update_at i (λ c. answered s.stop_err) s.stops }

-- What a call of Stop does next; its wait for `doneCh` changes nothing.
pub stop_from : Caller → ℕ → Lifecycle → Lifecycle
unfolding do_once
stop_from entered i s = do_once s.once i s
stop_from draining i s =
    if s.done
    then record s { once = over; stops = update_at i (λ c. answered s.stop_err) s.stops }
    else s
stop_from (answered a) i s = s

unfoldable pub stop_step : ℕ → Lifecycle → Lifecycle
unfolding stop_from
stop_step i s = elim (get_elem? s.stops i) [ none ↦ s | some c ↦ stop_from c i s ]

pub data Step : Type 0 where
  start_op : Step
  loop_op : Option Error → Step
  stop_op : Step
  stop_step_op : ℕ → Step

unfoldable pub step : Step → Lifecycle → Lifecycle
unfolding start loop_returns stop_enter stop_step
step start_op s = (start s).1
step (loop_op e) s = loop_returns e s
step stop_op s = stop_enter s
step (stop_step_op i) s = stop_step i s

unfoldable pub steps : List Step → Lifecycle → Lifecycle
unfolding step
steps [] s = s
steps (o ∷ os) s = steps os (step o s)
