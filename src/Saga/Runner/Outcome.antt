-- ===== src/Saga/Runner/Outcome.antt =====
-- What a run returns, logs and leaves in the store, in terms of `forward` and `rollback`.
use mathlib.Core.List.{reverse}
use watchkeepers.Prelude.{
  String, ◌≡◌, refl, Option, none, some, List, [], ◌∷◌, ◌++◌, append_assoc, append-nil,
  Option-cases, some_not_none, inl, inr, ◌∙◌, sym, ◌⊎◌, ◌≢◌,
}
use mathlib.Core.Option.{some-injective}
use mathlib.Core.Path.{subst}
use watchkeepers.Go.Context.{Context}
use watchkeepers.Go.Errors.{Error, wrap, ok}
use watchkeepers.Saga.{
  Uuid, Saga, in_flight, completed, failed, Event, SpawnSagaDao, SpawnSagaDaoLaws,
  resolve_last_error_class,
}
use watchkeepers.Saga.Runner.{
  Step, World, started_row, completed_row, failed_row, saga_completed_row, compensated_row, emit,
  fail, complete, run_steps, run,
}
use watchkeepers.Saga.Runner.Forward.{
  Forward, forward, forward_rows, forward-success, forward-failure,
}
use watchkeepers.Saga.Runner.Rollback.{rollback, compensate_lem}

module _ {D W : Type 0} (uuid_text : Uuid → String) (dao : SpawnSagaDao D) (ctx : Context)
    (id : Uuid) where
  -- The world after the rows and the call of one step.
  abbrev stepped : Step W → World D W → World D W
  stepped step s = record {
    dao = (dao.update_step id step.name s.dao).1;
    log = s.log ++ started_row uuid_text id step.name ∷ [];
    env = (step.execute ctx s.env).1;
  }

  run_steps-success :
      (executed : List (Step W)) (step : Step W) (rest : List (Step W)) (s : World D W)
      → (dao.update_step id step.name s.dao).0 ≡ none
      → (step.execute ctx s.env).0 ≡ none
      → run_steps uuid_text dao ctx id executed (step ∷ rest) s
        ≡ run_steps uuid_text dao ctx id
            (executed ++ step ∷ [])
            rest
            (emit (completed_row uuid_text id step.name) (stepped step s))
  unfolding run_steps
  run_steps-success executed step rest s u x = rw (u, run_steps) (rw (x, run_steps))

  run_steps-failure :
      (executed : List (Step W)) (step : Step W) (rest : List (Step W)) (s : World D W) (e : Error)
      → (dao.update_step id step.name s.dao).0 ≡ none
      → (step.execute ctx s.env).0 ≡ some e
      → run_steps uuid_text dao ctx id executed (step ∷ rest) s
        ≡ fail uuid_text dao ctx id step e executed (stepped step s)
  unfolding run_steps
  run_steps-failure executed step rest s e u x = rw (u, run_steps) (rw (x, run_steps))

append_two {ℓ} :
    {A : Type ℓ} (xs : List A) (a b : A) (ys : List A)
    → ((xs ++ a ∷ []) ++ b ∷ []) ++ ys ≡ xs ++ (a ∷ b ∷ ys)
append_two xs a b ys = simp append_assoc

append_last {ℓ} :
    {A : Type ℓ} (xs : List A) (a b c : A) (ys : List A)
    → (((xs ++ a ∷ []) ++ b ∷ []) ++ ys) ++ c ∷ [] ≡ xs ++ (a ∷ b ∷ (ys ++ c ∷ []))
append_last xs a b c ys = simp append_assoc

module _ {D W : Type 0} (uuid_text : Uuid → String) {dao : SpawnSagaDao D}
    (laws : SpawnSagaDaoLaws dao) (ctx : Context) (id : Uuid) where
  rows_cons :
      (log : List Event) (step : Step W) (done : List (Step W)) (ys : List Event)
      → ((log ++ started_row uuid_text id step.name ∷ [])
            ++ completed_row uuid_text id step.name ∷ [])
          ++ (forward_rows uuid_text id done ++ ys)
        ≡ log ++ (forward_rows uuid_text id (step ∷ done) ++ ys)
  unfolding forward_rows
  rows_cons log step done ys = append_two log _ _ _

  run_steps_succeeds :
      (executed steps : List (Step W)) (s : World D W) (row : Saga)
      → dao.get id s.dao ≡ ok row
      → (forward ctx steps s.env).failed_step ≡ none
      → let r = run_steps uuid_text dao ctx id executed steps s in
        (r.0 ≡ none)
        × (r.1.log
            ≡ s.log
              ++ (forward_rows uuid_text id (forward ctx steps s.env).done
                  ++ saga_completed_row uuid_text id ∷ []))
        × (r.1.env ≡ (forward ctx steps s.env).env)
        × ((row' : Saga) × (dao.get id r.1.dao ≡ ok row') × (row'.status ≡ completed))
  run_steps_succeeds executed [] s row there h =
      let (t, marked, now) = laws.finished id s.dao row there in
      unfold run_steps complete forward forward_rows in
      rw (marked, complete)
        (
          refl,
          refl,
          refl,
          (record row { status = completed; updated_at = t; completed_at = t }, now, refl),
        )
  run_steps_succeeds executed (step ∷ rest) s row there h =
      elim (Option-cases (step.execute ctx s.env).0) [
        | inl x ↦
            let (t, updated, now) = laws.updated id step.name s.dao row there in
            rw
              (
                forward-success ctx step rest s.env x,
                run_steps-success uuid_text dao ctx id executed step rest s updated x,
              )
              (let s' =
                  emit (completed_row uuid_text id step.name)
                    (stepped uuid_text dao ctx id step s) in
                let ih =
                  run_steps_succeeds (executed ++ step ∷ []) rest s'
                    (record row { status = in_flight; current_step = step.name; updated_at = t })
                    now (rw (forward-success ctx step rest s.env x) at h) in
                (
                  ih.0,
                  ih.1
                      ∙ rows_cons s.log step (forward ctx rest s'.env).done
                          (saga_completed_row uuid_text id ∷ []),
                  ih.2,
                  ih.3,
                ))
        | inr (e, x) ↦ absurd (some_not_none (rw (forward-failure ctx step rest s.env e x) at h))
      ]

  not_failed : (w : W) {x : Step W × Error} → (forward ctx [] w).failed_step ≡ some x → ⊥
  unfolding forward
  not_failed w h = cc

  -- A run from `s` that ended as `r`, after the forward part `f` that failed at `step` with `e`.
  abbrev EndsFailed :
      List (Step W) → World D W → Forward W → Option Error × World D W → Step W × Error → Type 0
  EndsFailed executed s f r (step, e) =
      let back = rollback uuid_text ctx id (reverse (executed ++ f.done)) f.env in
      (r.0 ≡ some (wrap "saga: run: step %q: %w" e))
      × (r.1.log
          ≡ s.log
            ++ (forward_rows uuid_text id f.done
                ++ (started_row uuid_text id step.name
                    ∷ failed_row uuid_text id step.name (resolve_last_error_class e)
                    ∷ (back.0 ++ compensated_row uuid_text id ∷ []))))
      × (r.1.env ≡ back.1)
      × ((row' : Saga) × (dao.get id r.1.dao ≡ ok row')
          × (row'.status ≡ failed)
          × (row'.current_step ≡ step.name)
          × (row'.last_error ≡ resolve_last_error_class e))

  fail_lem :
      (executed : List (Step W)) (s : World D W) (row : Saga) (step : Step W) (e : Error)
      → dao.get id (stepped uuid_text dao ctx id step s).dao ≡ ok row
      → row.current_step ≡ step.name
      → EndsFailed executed s
          (record { done = []; failed_step = some (step, e); env = (step.execute ctx s.env).1 })
          (fail uuid_text dao ctx id step e executed (stepped uuid_text dao ctx id step s))
          (step, e)
  unfolding fail forward_rows
  fail_lem executed s row step e there named =
      let class = resolve_last_error_class e in
      let (t, marked, now) =
        laws.broken id class (dao.update_step id step.name s.dao).1 row there in
      rw (marked, fail)
        (rw (compensate_lem uuid_text dao ctx id executed _) (
          rw (append-nil executed) (
            refl,
            append_last s.log _ _ _ _,
            refl,
            (
              record row { status = failed; last_error = class; updated_at = t; completed_at = t },
              now,
              refl,
              named,
              refl,
            ),
          )))

  run_steps_fails :
      (executed steps : List (Step W)) (s : World D W) (row : Saga) (x : Step W × Error)
      → dao.get id s.dao ≡ ok row
      → (forward ctx steps s.env).failed_step ≡ some x
      → EndsFailed executed s
          (forward ctx steps s.env)
          (run_steps uuid_text dao ctx id executed steps s)
          x
  run_steps_fails executed [] s row x there h = absurd (not_failed s.env h)
  run_steps_fails executed (next ∷ rest) s row y there h =
      let (t, updated, now) = laws.updated id next.name s.dao row there in
      let row' : Saga = record row {
        status = in_flight;
        current_step = next.name;
        updated_at = t;
      } in
      elim (Option-cases (next.execute ctx s.env).0) [
        | inl x ↦
            rw
              (
                forward-success ctx next rest s.env x,
                run_steps-success uuid_text dao ctx id executed next rest s updated x,
              )
              (let s' =
                  emit (completed_row uuid_text id next.name)
                    (stepped uuid_text dao ctx id next s) in
                let tail = forward ctx rest s'.env in
                let ih =
                  run_steps_fails (executed ++ next ∷ []) rest s' row' y now
                    (rw (forward-success ctx next rest s.env x) at h) in
                let ih' = rw (append_assoc executed (next ∷ []) tail.done) at ih in
                (ih'.0, ih'.1 ∙ rows_cons s.log next tail.done _, ih'.2, ih'.3))
        | inr (e, x) ↦
            rw
              (
                forward-failure ctx next rest s.env e x,
                run_steps-failure uuid_text dao ctx id executed next rest s e updated x,
              )
              (subst
                (λ p.
                  EndsFailed executed s
                    (record {
                      done = [];
                      failed_step = some (next, e);
                      env = (next.execute ctx s.env).1;
                    })
                    (fail uuid_text dao ctx id next e executed
                      (stepped uuid_text dao ctx id next s))
                    p)
                (some-injective (next, e) y (rw (forward-failure ctx next rest s.env e x) at h))
                (fail_lem executed s row' next e now refl))
      ]

  -- On a saga that the store holds, a run whose steps all succeed returns nil, hands over exactly a
  -- started and a completed row for each step in order and then the saga's completed row, leaves
  -- the outside as the steps left it, and leaves the saga's row completed.
  pub run-succeeds :
      (steps : List (Step W)) (s : World D W) (row : Saga)
      → dao.get id s.dao ≡ ok row
      → (forward ctx steps s.env).failed_step ≡ none
      → let r = run uuid_text dao ctx id steps s in
        let f = forward ctx steps s.env in
        (r.0 ≡ none)
        × (r.1.log
            ≡ s.log ++ (forward_rows uuid_text id f.done ++ saga_completed_row uuid_text id ∷ []))
        × (r.1.env ≡ f.env)
        × ((row' : Saga) × (dao.get id r.1.dao ≡ ok row') × (row'.status ≡ completed))
  unfolding run
  run-succeeds steps s row there h = rw (there, run) (run_steps_succeeds [] steps s row there h)

  -- On a saga that the store holds, a run in which a step's `Execute` fails returns that error
  -- wrapped, whatever the compensations return; hands over the rows of the steps before it, its
  -- started row, the failed row with its class, the rows of the compensations of the steps before
  -- it in reverse order, and the summary row; leaves the outside as those compensations left it;
  -- and leaves the saga's row failed, with the step's name and the error's class.
  pub run-fails :
      (steps : List (Step W)) (s : World D W) (row : Saga) (step : Step W) (e : Error)
      → dao.get id s.dao ≡ ok row
      → (forward ctx steps s.env).failed_step ≡ some (step, e)
      → let r = run uuid_text dao ctx id steps s in
        let f = forward ctx steps s.env in
        let back = rollback uuid_text ctx id (reverse f.done) f.env in
        (r.0 ≡ some (wrap "saga: run: step %q: %w" e))
        × (r.1.log
            ≡ s.log
              ++ (forward_rows uuid_text id f.done
                  ++ (started_row uuid_text id step.name
                      ∷ failed_row uuid_text id step.name (resolve_last_error_class e)
                      ∷ (back.0 ++ compensated_row uuid_text id ∷ []))))
        × (r.1.env ≡ back.1)
        × ((row' : Saga) × (dao.get id r.1.dao ≡ ok row')
            × (row'.status ≡ failed)
            × (row'.current_step ≡ step.name)
            × (row'.last_error ≡ resolve_last_error_class e))
  unfolding run
  run-fails steps s row step e there h =
      rw (there, run) (run_steps_fails [] steps s row (step, e) there h)

  -- A run always ends its saga: if the store holds the saga's row, then after the run the row is
  -- completed or failed, and it is completed exactly when the run returned nil.
  pub run_terminal :
      (steps : List (Step W)) (s : World D W) (row : Saga)
      → dao.get id s.dao ≡ ok row
      → let r = run uuid_text dao ctx id steps s in
        (row' : Saga) × (dao.get id r.1.dao ≡ ok row')
        × ((row'.status ≡ completed) × (r.0 ≡ none) ⊎ (row'.status ≡ failed) × (r.0 ≢ none))
  run_terminal steps s row there = elim (Option-cases (forward ctx steps s.env).failed_step) [
    | inl h ↦
        let (returned, _, _, (row', at_end, status)) = run-succeeds steps s row there h in
        (row', at_end, inl (status, returned))
    | inr ((step, e), h) ↦
        let (returned, _, _, (row', at_end, status, _, _)) = run-fails steps s row step e there h in
        (row', at_end, inr (status, λ n. some_not_none (sym returned ∙ n)))
  ]
