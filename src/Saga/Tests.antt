-- ===== src/Saga/Tests.antt =====
-- Runs of small sagas over the in-memory store, and the theorems at them.
use mathlib.Core.List.{reverse}
use watchkeepers.Prelude.{
  String, ◌≡◌, ◌≢◌, ◌⊎◌, refl, none, some, List, [], ◌∷◌, ◌++◌, Every, true, arith, ◌+◌,
}
use watchkeepers.Go.Context.{Context}
use watchkeepers.Go.Errors.{Error, text, classed_wrap, wrap, ok}
use watchkeepers.Go.Text.{is_blank}
use watchkeepers.Saga.{Uuid, Saga, completed, failed, resolve_last_error_class}
use watchkeepers.Saga.Store.{
  MemorySpawnSagaDao, memory_dao, new_memory_dao, insert, insert_if_absent, fresh_row, get,
  inserted_as, replay_of,
}
use watchkeepers.Saga.Store.Contract.{memory_dao_laws}
use watchkeepers.Saga.Store.Claims.{calls, mark_failed_call, key_claimed_once}
use watchkeepers.Saga.Runner.{
  Step, World, returned, panicked, run, started_row, completed_row, failed_row, saga_completed_row,
  compensated_row,
}
use watchkeepers.Saga.Runner.Forward.{forward, forward_rows}
use watchkeepers.Saga.Runner.Rollback.{rollback}
use watchkeepers.Saga.Runner.Outcome.{run-succeeds, run-fails, run_terminal}
use watchkeepers.Saga.Runner.Audit.{IsAuditRow, run_audited}

-- The outside is the list of what was done to it.
abbrev Trace : Type 0
Trace = List String

abbrev request : Context
request = record { values = 1; deadline = some 50; linked = true }

abbrev text_of : Uuid → String
text_of id = "00000000-0000-0000-0000-000000000007"

abbrev plain : Step Trace
plain = record { name = "bot_profile"; execute = λ c w. (none, "profile" ∷ w); compensate = none }

abbrev create_app : Step Trace
create_app = record {
  name = "slack_app_create";
  execute = λ c w. (none, "create" ∷ w);
  compensate = some (λ c w. (panicked, "delete" ∷ w));
}

abbrev provision : Step Trace
provision = record {
  name = "notebook_provision";
  execute = λ c w. (none, "provision" ∷ w);
  compensate = some (λ c w. (returned none, "archive" ∷ w));
}

abbrev launch_error : Error
launch_error = classed_wrap "launch_refused" (text "no host")

abbrev launch : Step Trace
launch = record {
  name = "runtime_launch";
  execute = λ c w. (some launch_error, w);
  compensate = some (λ c w. (returned none, "stop" ∷ w));
}

abbrev seven : MemorySpawnSagaDao
unfolding insert
seven = (insert 7 3 (new_memory_dao (λ n. 100 + n))).1

abbrev row : Saga
unfolding fresh_row
row = fresh_row 7 3 0 "" 100

abbrev start : World MemorySpawnSagaDao Trace
start = record { dao = seven; log = []; env = [] }

seven_there : memory_dao.get 7 start.dao ≡ ok row
unfolding get insert fresh_row new_memory_dao
seven_there = refl

abbrev good : List (Step Trace)
good = plain ∷ create_app ∷ []

run-succeeds_example :
    let r = run text_of memory_dao request 7 good start in
    (r.0 ≡ none)
    × (r.1.log
        ≡ started_row text_of 7 "bot_profile"
          ∷ completed_row text_of 7 "bot_profile"
          ∷ started_row text_of 7 "slack_app_create"
          ∷ completed_row text_of 7 "slack_app_create"
          ∷ saga_completed_row text_of 7
          ∷ [])
    × (r.1.env ≡ "create" ∷ "profile" ∷ [])
    × ((row' : Saga) × (memory_dao.get 7 r.1.dao ≡ ok row') × (row'.status ≡ completed))
unfolding forward forward_rows
run-succeeds_example =
    run-succeeds text_of memory_dao_laws request 7 good start row seven_there refl

abbrev bad : List (Step Trace)
bad = create_app ∷ plain ∷ provision ∷ launch ∷ good

run-fails_example :
    let r = run text_of memory_dao request 7 bad start in
    let f = forward request bad start.env in
    let back = rollback text_of request 7 (reverse f.done) f.env in
    (r.0 ≡ some (wrap "saga: run: step %q: %w" launch_error))
    × (r.1.log
        ≡ start.log
          ++ (forward_rows text_of 7 f.done
              ++ (started_row text_of 7 "runtime_launch"
                  ∷ failed_row text_of 7 "runtime_launch" (resolve_last_error_class launch_error)
                  ∷ (back.0 ++ compensated_row text_of 7 ∷ []))))
    × (r.1.env ≡ back.1)
    × ((row' : Saga) × (memory_dao.get 7 r.1.dao ≡ ok row')
        × (row'.status ≡ failed)
        × (row'.current_step ≡ "runtime_launch")
        × (row'.last_error ≡ resolve_last_error_class launch_error))
unfolding forward
run-fails_example =
    run-fails text_of memory_dao_laws request 7 bad start row launch launch_error seven_there refl

-- The compensations of the run above, in reverse order; a panic does not stop them.
bad_undone :
    (rollback text_of request 7 (reverse (forward request bad []).done) []).1
    ≡ "delete" ∷ "archive" ∷ []
unfolding forward rollback
bad_undone = refl

run_terminal_example :
    let r = run text_of memory_dao request 7 bad start in
    (row' : Saga) × (memory_dao.get 7 r.1.dao ≡ ok row')
    × ((row'.status ≡ completed) × (r.0 ≡ none) ⊎ (row'.status ≡ failed) × (r.0 ≢ none))
run_terminal_example = run_terminal text_of memory_dao_laws request 7 bad start row seven_there

run_audited_example : Every IsAuditRow (run text_of memory_dao request 7 bad start).1.log
run_audited_example = run_audited text_of memory_dao request 7 bad start tt

abbrev keyed : Saga
unfolding fresh_row
keyed = fresh_row 8 3 5 "approval-1" 101

first_insert : (insert_if_absent 8 3 5 "approval-1" seven).0 ≡ ok (inserted_as keyed)
unfolding insert_if_absent insert fresh_row is_blank new_memory_dao
first_insert = refl

key_claimed_once_example :
    let n = calls (insert_if_absent 8 3 5 "approval-1" seven).1 (mark_failed_call 8 "x" ∷ []) in
    (held : Saga) × (insert_if_absent 9 4 6 "approval-1" n ≡ (ok (replay_of held), n))
    × (n.rows 8 ≡ some held)
    × (held.id ≡ 8)
    × (held.manifest_version_id ≡ 3)
    × (held.watchkeeper_id ≡ 5)
unfolding fresh_row
key_claimed_once_example =
    key_claimed_once 8 3 5 "approval-1" seven keyed first_insert (mark_failed_call 8 "x" ∷ []) 9 4 6
      (omega arith) (omega arith) (omega arith)
