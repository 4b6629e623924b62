-- ===== src/Kickoff.antt =====
-- core/pkg/spawn: spawnkickoff.go and retirekickoff.go. The two kickoffers have one body but for what
-- `Kind` has: messages, event types, payloads, and the row of a failed spawn. The store, the runner
-- and the rows are those of the saga; `answers n` is what the log's writer answers to the n-th row
-- that is handed to it; `with_value` names the chain of a context with one value more.
pub mod Rows
pub mod Once
mod Tests
use watchkeepers.Prelude.{
  ℕ, zero, suc, String, Bool, true, false, not, ◌&&◌, Option, none, some, List, [], ◌∷◌, ◌++◌,
  length, leb, ◌⊎◌, if◌then◌else◌, ◌==◌, number_eq, string_eq,
}
use watchkeepers.Go.Errors.{Error, sentinel, wrap, Result, ok, err}
use watchkeepers.Go.Context.{Context}
use watchkeepers.Go.Text.{is_blank}
use watchkeepers.Saga.{
  Uuid, nil_uuid, SagaState, pending, in_flight, completed, failed, Saga, IdempotentInsertResult,
  SpawnSagaDao, Event,
}
use watchkeepers.Saga.Runner.{Step, World, emit, run}
use watchkeepers.Kickoff.Rows.{About, Kind, spawn_kind, retire_kind}

abbrev pub err_invalid_kickoff_args : String
err_invalid_kickoff_args = "ErrInvalidKickoffArgs"

-- `C` is the claim.
pub record SpawnContext (C : Type 0) : Type 0 where
  pub manifest_version_id : Uuid
  pub agent_id : Uuid
  pub claim : C
  pub oauth_code : String

-- The values that the kickoffers put into a context: a `SpawnContext`, and for a retirement a fresh
-- `RetireResult`.
pub data Value (C : Type 0) : Type 0 where
  spawn_context : SpawnContext C → Value C
  retire_result : Value C

abbrev pub is_pending : SagaState → Bool
is_pending pending = true
is_pending in_flight = false
is_pending completed = false
is_pending failed = false

-- A row is handed to the writer, whatever it answers.
module _ {D W : Type 0} where
  abbrev pub append : (ℕ → Option Error) → Event → World D W → Option Error × World D W
  append answers e s = (answers (length s.log), emit e s)

-- A call's arguments after the ids.
pub record Order (C : Type 0) : Type 0 where
  pub ctx : Context
  pub saga_id : Uuid
  pub manifest : Uuid
  pub keeper : Uuid
  pub claim : C

module _ {D W C : Type 0} (uuid_text : Uuid → String) (dao : SpawnSagaDao D) (kind : Kind)
    (with_value : Value C → ℕ → ℕ) (agent_id : String) (steps : List (Step W))
    (answers : ℕ → Option Error) where
  -- The row and the token that an entry of the log names.
  pub about : Saga → String → About
  about row token = record {
    saga_id = row.id;
    manifest = row.manifest_version_id;
    keeper = row.watchkeeper_id;
    token = token;
    agent_id = agent_id;
  }

  pub run_context : Order C → Saga → Context
  run_context o row =
      let sc : SpawnContext C = record {
        manifest_version_id = row.manifest_version_id;
        agent_id = row.watchkeeper_id;
        claim = o.claim;
        oauth_code = "";
      } in
      let named = with_value (spawn_context sc) o.ctx.values in
      record o.ctx {
        values = if kind.carries_result then with_value retire_result named else named;
      }

  -- The end of a run that failed: the row of it, if there is one, and the error of the run.
  pub reject : Saga → String → Error → World D W → Option Error × World D W
  unfolding about
  reject row token e s = (
    some (wrap kind.run_failed e),
    elim kind.rejected [
      | none ↦ s
      | some rejected_row ↦ (append answers (rejected_row (about row token)) s).1
    ],
  )

  pub launch : Order C → Saga → String → World D W → Option Error × World D W
  unfolding about run_context reject
  launch o row token s =
      let (appended, s') = append answers (kind.approved (about row token)) s in
      elim appended [
        | some e ↦ (some (wrap kind.append_approved_failed e), s')
        | none ↦
            let (failure, s'') = run uuid_text dao (run_context o row) row.id steps s' in
            elim failure [ none ↦ (none, s'') | some e ↦ reject row token e s'' ]
      ]

  pub replay_row : Saga → String → World D W → Option Error × World D W
  unfolding about
  replay_row row token s =
      let (appended, s') = append answers (kind.replayed (about row token) row.status) s in
      elim appended [ none ↦ (none, s') | some e ↦ (some (wrap kind.append_replayed_failed e), s') ]

  pub proceed : Order C → String → IdempotentInsertResult → World D W → Option Error × World D W
  unfolding launch replay_row
  proceed o token r s =
      if not r.inserted && not (is_pending r.existing.status)
      then replay_row r.existing token s
      else launch o r.existing token s

  invalid : String → Option Error
  invalid what = some (wrap what (sentinel err_invalid_kickoff_args))

  unfoldable pub kickoff : Order C → String → World D W → Option Error × World D W
  unfolding proceed invalid
  kickoff o token s =
      if o.saga_id == nil_uuid
      then (invalid "%w: empty sagaID", s)
      else if o.manifest == nil_uuid
      then (invalid "%w: empty manifestVersionID", s)
      else if o.keeper == nil_uuid
      then (invalid "%w: empty watchkeeperID", s)
      else if is_blank token
      then (invalid "%w: empty approvalToken", s)
      else (let (inserted, d) = dao.insert_if_absent o.saga_id o.manifest o.keeper token s.dao in
          elim inserted [
            | err e ↦ (some (wrap kind.insert_failed e), record s { dao = d })
            | ok r ↦ proceed o token r (record s { dao = d })
          ])

module _ {D W C : Type 0} (uuid_text : Uuid → String) (dao : SpawnSagaDao D)
    (with_value : Value C → ℕ → ℕ) (agent_id : String) (steps : List (Step W))
    (answers : ℕ → Option Error) where
  unfoldable pub spawn_kickoff : Order C → String → World D W → Option Error × World D W
  spawn_kickoff = kickoff uuid_text dao (spawn_kind uuid_text) with_value agent_id steps answers

  unfoldable pub retire_kickoff : Order C → String → World D W → Option Error × World D W
  retire_kickoff = kickoff uuid_text dao (retire_kind uuid_text) with_value agent_id steps answers
