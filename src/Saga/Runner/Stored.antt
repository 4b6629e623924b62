-- ===== src/Saga/Runner/Stored.antt =====
-- What a run does to the in-memory store: it is a sequence of calls of the store's writing methods,
-- whatever the steps do and however the run ends.
use watchkeepers.Prelude.{String, ◌≡◌, refl, ap, List, [], ◌∷◌, ◌++◌, Option-cases, inl, inr}
use watchkeepers.Go.Errors.{Error, Result-cases}
use watchkeepers.Go.Context.{Context}
use watchkeepers.Saga.{Uuid, resolve_last_error_class}
use watchkeepers.Saga.Runner.{Step, World, compensate, fail, complete, run_steps, run}
use watchkeepers.Saga.Runner.Rollback.{compensate_lem}
use watchkeepers.Saga.Store.{MemorySpawnSagaDao, memory_dao}
use watchkeepers.Saga.Store.Claims.{
  Call, call, calls, update_step_call, mark_completed_call, mark_failed_call,
}

-- The second store comes from the first by calls.
abbrev pub Reached : MemorySpawnSagaDao → MemorySpawnSagaDao → Type 0
Reached m n = (cs : List Call) × n ≡ calls m cs

no_calls : (m : MemorySpawnSagaDao) → Reached m m
unfolding calls
no_calls m = ([], refl)

one_call : (m : MemorySpawnSagaDao) (c : Call) → Reached m (call m c)
unfolding calls
one_call m c = (c ∷ [], refl)

after_call :
    (m : MemorySpawnSagaDao) (c : Call) (n : MemorySpawnSagaDao)
    → Reached (call m c) n
    → Reached m n
unfolding calls
after_call m c n (cs, e) = (c ∷ cs, e)

module _ {W : Type 0} (uuid_text : Uuid → String) (ctx : Context) (id : Uuid) where
  compensate-dao :
      (executed : List (Step W)) (s : World MemorySpawnSagaDao W)
      → (compensate uuid_text memory_dao ctx id executed s).dao ≡ s.dao
  compensate-dao executed s =
      ap (λ w. w.dao) (compensate_lem uuid_text memory_dao ctx id executed s)

  fail-Reached :
      (step : Step W) (e : Error) (executed : List (Step W)) (s : World MemorySpawnSagaDao W)
      → Reached s.dao (fail uuid_text memory_dao ctx id step e executed s).1.dao
  unfolding fail call
  fail-Reached step e executed s =
      let class = resolve_last_error_class e in
      let marked = one_call s.dao (mark_failed_call id class) in
      elim (Option-cases (memory_dao.mark_failed id class s.dao).0) [
        | inl h ↦ rw (h, fail) (rw compensate-dao marked)
        | inr (m, h) ↦ rw (h, fail) marked
      ]

  complete-Reached :
      (s : World MemorySpawnSagaDao W)
      → Reached s.dao (complete uuid_text memory_dao ctx id s).1.dao
  unfolding complete call
  complete-Reached s =
      let marked = one_call s.dao (mark_completed_call id) in
      elim (Option-cases (memory_dao.mark_completed id s.dao).0) [
        | inl h ↦ rw (h, complete) marked
        | inr (m, h) ↦ rw (h, complete) marked
      ]

  run_steps-Reached :
      (executed steps : List (Step W)) (s : World MemorySpawnSagaDao W)
      → Reached s.dao (run_steps uuid_text memory_dao ctx id executed steps s).1.dao
  unfolding run_steps call
  run_steps-Reached executed [] s = complete-Reached s
  run_steps-Reached executed (step ∷ rest) s =
      let c = update_step_call id step.name in
      elim (Option-cases (memory_dao.update_step id step.name s.dao).0) [
        | inr (e, h) ↦ rw (h, run_steps) (one_call s.dao c)
        | inl h ↦ elim (Option-cases (step.execute ctx s.env).0) [
          | inr (e, x) ↦
              rw (h, run_steps)
                (rw (x, run_steps) (after_call s.dao c _ (fail-Reached step e executed _)))
          | inl x ↦
              rw (h, run_steps)
                (rw (x, run_steps)
                  (after_call s.dao c _ (run_steps-Reached (executed ++ step ∷ []) rest _)))
        ]
      ]

  pub run-Reached :
      (steps : List (Step W)) (s : World MemorySpawnSagaDao W)
      → Reached s.dao (run uuid_text memory_dao ctx id steps s).1.dao
  unfolding run
  run-Reached steps s = elim (Result-cases (memory_dao.get id s.dao)) [
    | inl (e, h) ↦ rw (h, run) (no_calls s.dao)
    | inr (row, h) ↦ rw (h, run) (run_steps-Reached [] steps s)
  ]
