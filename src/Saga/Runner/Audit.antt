-- ===== src/Saga/Runner/Audit.antt =====
-- The audit rows that a run hands over, whatever the store answers: the closed vocabulary of
-- saga.go and compensator.go.
use watchkeepers.Prelude.{
  ℕ, zero, suc, String, ◌≡◌, refl, ◌⊎◌, inl, inr, Option, none, some, List, [], ◌∷◌, ◌++◌, map,
  Every, Every-append, Option-cases, get_elem?, length,
}
use watchkeepers.Go.Context.{Context}
use watchkeepers.Go.Errors.{Error, Result-cases}
use watchkeepers.Saga.{
  Uuid, Event, SpawnSagaDao, saga_step_started, saga_step_completed, saga_failed, saga_completed,
  saga_step_compensated, saga_compensation_failed, saga_compensated, key_saga_id, key_step_name,
  key_last_error_class, step_payload, failed_payload, saga_payload, resolve_last_error_class,
}
use watchkeepers.Saga.Runner.{
  Step, World, undo_row, compensate_step, compensate_down, compensate, fail, complete, run_steps,
  run,
}

abbrev pub keys : Event → List String
keys e = map (λ p. p.0) e.payload

-- A row about a step, about an error in a step, or about the whole saga.
abbrev pub IsAuditRow : Event → Type 0
IsAuditRow e =
    (((e.event_type ≡ saga_step_started)
        ⊎ (e.event_type ≡ saga_step_completed)
        ⊎ (e.event_type ≡ saga_step_compensated))
      × (keys e ≡ key_saga_id ∷ key_step_name ∷ []))
    ⊎ (((e.event_type ≡ saga_failed) ⊎ (e.event_type ≡ saga_compensation_failed))
        × (keys e ≡ key_saga_id ∷ key_step_name ∷ key_last_error_class ∷ []))
    ⊎ (((e.event_type ≡ saga_completed) ⊎ (e.event_type ≡ saga_compensated))
        × (keys e ≡ key_saga_id ∷ []))

abbrev IsAudited : {D W : Type 0} → World D W → Type 0
IsAudited s = Every IsAuditRow s.log

add_row :
    (log : List Event) (e : Event)
    → Every IsAuditRow log
    → IsAuditRow e
    → Every IsAuditRow (log ++ e ∷ [])
add_row log e h r = Every-append IsAuditRow log (e ∷ []) h (tt, r)

undo_row-IsAuditRow :
    (uuid_text : Uuid → String) (id : Uuid) (step : String) (e : Option Error)
    → IsAuditRow (undo_row uuid_text id step e)
unfolding step_payload failed_payload
undo_row-IsAuditRow uuid_text id step none = inl (inr (inr refl), refl)
undo_row-IsAuditRow uuid_text id step (some e) = inr (inl (inr refl, refl))

module _ {D W : Type 0} (uuid_text : Uuid → String) (dao : SpawnSagaDao D) (ctx : Context)
    (id : Uuid) where
  compensate_step-IsAudited :
      (step : Step W) (s : World D W)
      → IsAudited s
      → IsAudited (compensate_step uuid_text dao ctx id step s)
  unfolding compensate_step
  compensate_step-IsAudited step s h = elim (Option-cases step.compensate) [
    | inl e ↦ rw (e, compensate_step) h
    | inr (c, e) ↦
        rw (e, compensate_step) (add_row s.log _ h (undo_row-IsAuditRow uuid_text id step.name _))
  ]

  compensate_down-IsAudited :
      (i : ℕ) (executed : List (Step W)) (s : World D W)
      → IsAudited s
      → IsAudited (compensate_down uuid_text dao ctx id i executed s)
  unfolding compensate_down
  compensate_down-IsAudited zero executed s h = h
  compensate_down-IsAudited (suc i) executed s h = elim (Option-cases (get_elem? executed i)) [
    | inl e ↦ rw (e, compensate_down) h
    | inr (step, e) ↦
        rw (e, compensate_down)
          (compensate_down-IsAudited i executed _ (compensate_step-IsAudited step s h))
  ]

  compensate-IsAudited :
      (executed : List (Step W)) (s : World D W)
      → IsAudited s
      → IsAudited (compensate uuid_text dao ctx id executed s)
  unfolding compensate saga_payload
  compensate-IsAudited executed s h =
      add_row _ _ (compensate_down-IsAudited (length executed) executed s h)
        (inr (inr (inr refl, refl)))

  fail-IsAudited :
      (step : Step W) (e : Error) (executed : List (Step W)) (s : World D W)
      → IsAudited s
      → IsAudited (fail uuid_text dao ctx id step e executed s).1
  unfolding fail failed_payload
  fail-IsAudited step e executed s h =
      elim (Option-cases (dao.mark_failed id (resolve_last_error_class e) s.dao).0) [
        | inl m ↦
            rw (m, fail)
              (compensate-IsAudited executed _ (add_row s.log _ h (inr (inl (inl refl, refl)))))
        | inr (x, m) ↦ rw (m, fail) h
      ]

  complete-IsAudited : (s : World D W) → IsAudited s → IsAudited (complete uuid_text dao ctx id s).1
  unfolding complete saga_payload
  complete-IsAudited s h = elim (Option-cases (dao.mark_completed id s.dao).0) [
    | inl m ↦ rw (m, complete) (add_row s.log _ h (inr (inr (inl refl, refl))))
    | inr (x, m) ↦ rw (m, complete) h
  ]

  run_steps-IsAudited :
      (executed steps : List (Step W)) (s : World D W)
      → IsAudited s
      → IsAudited (run_steps uuid_text dao ctx id executed steps s).1
  unfolding run_steps step_payload
  run_steps-IsAudited executed [] s h = complete-IsAudited s h
  run_steps-IsAudited executed (step ∷ rest) s h =
      let started : Every IsAuditRow (s.log ++ _ ∷ []) = add_row s.log _ h (inl (inl refl, refl)) in
      elim (Option-cases (dao.update_step id step.name s.dao).0) [
        | inr (x, u) ↦ rw (u, run_steps) h
        | inl u ↦ elim (Option-cases (step.execute ctx s.env).0) [
          | inr (e, x) ↦
              rw (u, run_steps) (rw (x, run_steps) (fail-IsAudited step e executed _ started))
          | inl x ↦
              rw (u, run_steps)
                (rw (x, run_steps)
                  (run_steps-IsAudited (executed ++ step ∷ []) rest _
                    (add_row _ _ started (inl (inr (inl refl), refl)))))
        ]
      ]

  -- Whatever the store answers and whatever the steps do, a run adds to an audited log only rows of
  -- the seven event types, each with exactly the payload keys of its kind; an error's message is
  -- under no key.
  pub run_audited :
      (steps : List (Step W)) (s : World D W)
      → Every IsAuditRow s.log
      → Every IsAuditRow (run uuid_text dao ctx id steps s).1.log
  unfolding run
  run_audited steps s h = elim (Result-cases (dao.get id s.dao)) [
    | inl (e, g) ↦ rw (g, run) h
    | inr (row, g) ↦ rw (g, run) (run_steps-IsAudited [] steps s h)
  ]
