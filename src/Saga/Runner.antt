-- ===== src/Saga/Runner.antt =====
-- core/pkg/spawn/saga/saga.go and compensator.go: the runner. A step's effects are on an
-- environment `W`, which also decides how its calls end.
pub mod Forward
pub mod Rollback
pub mod Outcome
pub mod Audit
pub mod Stored
use watchkeepers.Prelude.{
  ℕ, zero, suc, String, Option, none, some, List, [], ◌∷◌, ◌++◌, length, get_elem?, if◌then◌else◌,
}
use watchkeepers.Go.Errors.{Error, wrap, classed, Result, ok, err, is_error}
use watchkeepers.Go.Context.{Context, without_cancel}
use watchkeepers.Saga.{
  Uuid, Saga, SpawnSagaDao, Event, saga_step_started, saga_step_completed, saga_failed,
  saga_completed, saga_step_compensated, saga_compensation_failed, saga_compensated, step_payload,
  failed_payload, saga_payload, class_compensate_panic, resolve_last_error_class,
  resolve_compensate_last_error_class, err_saga_not_found,
}

-- How a call of `Compensate` ends.
pub data Undo : Type 0 where
  returned : Option Error → Undo
  panicked : Undo

-- A step, with `Compensate` if it implements `Compensator`.
pub record Step (W : Type 0) : Type 0 where
  pub name : String
  pub execute : Context → W → Option Error × W
  pub compensate : Option (Context → W → Undo × W)

-- `safeCompensate`: the recovered value is not kept.
unfoldable pub safe_compensate : Undo → Option Error
safe_compensate (returned e) = e
safe_compensate panicked = some (classed class_compensate_panic)

-- What a run works on: the store, the rows handed to the appender, and the outside.
pub record World (D W : Type 0) : Type 0 where
  pub dao : D
  pub log : List Event
  pub env : W

-- The appender's own failure is swallowed, so only the hand-over counts.
module _ {D W : Type 0} where
  abbrev pub emit : Event → World D W → World D W
  emit e s = record s { log = s.log ++ e ∷ [] }

module _ (uuid_text : Uuid → String) (id : Uuid) where
  abbrev pub started_row : String → Event
  started_row step = record {
    event_type = saga_step_started;
    payload = step_payload uuid_text id step;
  }

  abbrev pub completed_row : String → Event
  completed_row step = record {
    event_type = saga_step_completed;
    payload = step_payload uuid_text id step;
  }

  abbrev pub failed_row : String → String → Event
  failed_row step class = record {
    event_type = saga_failed;
    payload = failed_payload uuid_text id step class;
  }

  abbrev pub saga_completed_row : Event
  saga_completed_row = record { event_type = saga_completed; payload = saga_payload uuid_text id }

  abbrev pub step_compensated_row : String → Event
  step_compensated_row step = record {
    event_type = saga_step_compensated;
    payload = step_payload uuid_text id step;
  }

  abbrev pub compensation_failed_row : String → String → Event
  compensation_failed_row step class = record {
    event_type = saga_compensation_failed;
    payload = failed_payload uuid_text id step class;
  }

  abbrev pub compensated_row : Event
  compensated_row = record { event_type = saga_compensated; payload = saga_payload uuid_text id }

  -- The row for one call of `Compensate`.
  abbrev pub undo_row : String → Option Error → Event
  undo_row step none = step_compensated_row step
  undo_row step (some e) = compensation_failed_row step (resolve_compensate_last_error_class e)

module _ {D W : Type 0} (uuid_text : Uuid → String) (dao : SpawnSagaDao D) (ctx : Context)
    (id : Uuid) where
  -- The body of the loop of `compensate`.
  pub compensate_step : Step W → World D W → World D W
  unfolding safe_compensate without_cancel
  compensate_step step s = elim step.compensate [
    | none ↦ s
    | some undo ↦
        let (u, w) = undo (without_cancel ctx) s.env in
        emit (undo_row uuid_text id step.name (safe_compensate u)) (record s { env = w })
  ]

  -- The loop at index `i - 1`, down to 0. An index past the end would be a Go panic.
  pub compensate_down : ℕ → List (Step W) → World D W → World D W
  compensate_down zero executed s = s
  compensate_down (suc i) executed s = elim (get_elem? executed i) [
    | none ↦ s
    | some step ↦ compensate_down i executed (compensate_step step s)
  ]

  pub compensate : List (Step W) → World D W → World D W
  unfolding compensate_down compensate_step
  compensate executed s =
      emit (compensated_row uuid_text id) (compensate_down (length executed) executed s)

  -- The branch of a failed `Execute`.
  pub fail : Step W → Error → List (Step W) → World D W → Option Error × World D W
  fail step e executed s =
      let class = resolve_last_error_class e in
      let (marked, d) = dao.mark_failed id class s.dao in
      let s' = record s { dao = d } in
      elim marked [
        | some m ↦ (some (wrap "saga: run: mark failed after step %q: %w" m), s')
        | none ↦ (
          some (wrap "saga: run: step %q: %w" e),
          compensate executed (emit (failed_row uuid_text id step.name class) s'),
        )
      ]

  -- After the loop.
  pub complete : World D W → Option Error × World D W
  complete s =
      let (marked, d) = dao.mark_completed id s.dao in
      let s' = record s { dao = d } in
      elim marked [
        | some m ↦ (some (wrap "saga: run: mark completed: %w" m), s')
        | none ↦ (none, emit (saga_completed_row uuid_text id) s')
      ]

  -- The loop over the steps.
  pub run_steps : List (Step W) → List (Step W) → World D W → Option Error × World D W
  run_steps executed [] s = complete s
  run_steps executed (step ∷ rest) s =
      let (updated, d) = dao.update_step id step.name s.dao in
      let s₁ = record s { dao = d } in
      elim updated [
        | some e ↦ (some (wrap "saga: run: update step %q: %w" e), s₁)
        | none ↦
            let s₂ = emit (started_row uuid_text id step.name) s₁ in
            let (failure, w) = step.execute ctx s₂.env in
            let s₃ = record s₂ { env = w } in
            elim failure [
              | some e ↦ fail step e executed s₃
              | none ↦
                  run_steps (executed ++ step ∷ []) rest
                    (emit (completed_row uuid_text id step.name) s₃)
            ]
      ]

  pub run : List (Step W) → World D W → Option Error × World D W
  unfolding run_steps complete fail
  run steps s = elim (dao.get id s.dao) [
    | err e ↦ (
      if is_error e err_saga_not_found
          then some (wrap "saga: run: %w" e)
          else some (wrap "saga: run: get: %w" e),
      s,
    )
    | ok _ ↦ run_steps [] steps s
  ]
