-- ===== src/Saga.antt =====
-- core/pkg/spawn/saga: the saga rows (dao.go), and the audit rows and error classes of the
-- runner (saga.go, compensator.go).
pub mod Store
pub mod Runner
mod Tests
use watchkeepers.Prelude.{
  ℕ, String, Bool, Option, none, some, List, [], ◌∷◌, ◌≡◌, if◌then◌else◌, ◌==◌, string_eq,
}
use watchkeepers.Go.Errors.{Error, Result, ok, as_class, is_error}
use watchkeepers.Go.Context.{canceled, deadline_exceeded}
pub use watchkeepers.Go.Uuid.{Uuid, nil_uuid}

-- A `time.Time` as an instant; the zero value is 0.
abbrev pub Time : Type 0
Time = ℕ

pub data SagaState : Type 0 where
  pending in_flight completed failed : SagaState

pub record Saga : Type 0 where
  pub id : Uuid
  pub manifest_version_id : Uuid
  pub status : SagaState
  pub current_step : String
  pub last_error : String
  pub created_at : Time
  pub updated_at : Time
  pub completed_at : Time
  pub idempotency_key : String
  pub watchkeeper_id : Uuid

abbrev pub err_saga_not_found : String
err_saga_not_found = "ErrSagaNotFound"

abbrev pub err_empty_idempotency_key : String
err_empty_idempotency_key = "ErrEmptyIdempotencyKey"

abbrev pub err_idempotency_index_inconsistent : String
err_idempotency_index_inconsistent = "ErrIdempotencyIndexInconsistent"

pub record IdempotentInsertResult : Type 0 where
  pub inserted : Bool
  pub existing : Saga

-- The persistence seam over a store of type `D`.
pub record SpawnSagaDao (D : Type 0) : Type 0 where
  pub insert : Uuid → Uuid → D → Option Error × D
  pub insert_if_absent : Uuid → Uuid → Uuid → String → D → Result IdempotentInsertResult × D
  pub get : Uuid → D → Result Saga
  pub update_step : Uuid → String → D → Option Error × D
  pub mark_completed : Uuid → D → Option Error × D
  pub mark_failed : Uuid → String → D → Option Error × D

-- What the interface's comments promise of the calls that the runner makes on a row that is there.
pub record SpawnSagaDaoLaws {D : Type 0} (dao : SpawnSagaDao D) : Type 0 where
  pub updated :
      (id : Uuid) (step : String) (d : D) (row : Saga)
      → dao.get id d ≡ ok row
      → (t : Time) × (dao.update_step id step d).0 ≡ none
        × dao.get id (dao.update_step id step d).1
          ≡ ok (record row { status = in_flight; current_step = step; updated_at = t })
  pub finished :
      (id : Uuid) (d : D) (row : Saga)
      → dao.get id d ≡ ok row
      → (t : Time) × (dao.mark_completed id d).0 ≡ none
        × dao.get id (dao.mark_completed id d).1
          ≡ ok (record row { status = completed; updated_at = t; completed_at = t })
  pub broken :
      (id : Uuid) (class : String) (d : D) (row : Saga)
      → dao.get id d ≡ ok row
      → (t : Time) × (dao.mark_failed id class d).0 ≡ none
        × dao.get id (dao.mark_failed id class d).1
          ≡ ok
              (record row { status = failed; last_error = class; updated_at = t; completed_at = t })

-- An audit row: its event type, and its payload as the keys and values of the map literal.
pub record Event : Type 0 where
  pub event_type : String
  pub payload : List (String × String)

abbrev pub saga_step_started : String
saga_step_started = "saga_step_started"

abbrev pub saga_step_completed : String
saga_step_completed = "saga_step_completed"

abbrev pub saga_failed : String
saga_failed = "saga_failed"

abbrev pub saga_completed : String
saga_completed = "saga_completed"

abbrev pub saga_step_compensated : String
saga_step_compensated = "saga_step_compensated"

abbrev pub saga_compensation_failed : String
saga_compensation_failed = "saga_compensation_failed"

abbrev pub saga_compensated : String
saga_compensated = "saga_compensated"

abbrev pub key_saga_id : String
key_saga_id = "saga_id"

abbrev pub key_step_name : String
key_step_name = "step_name"

abbrev pub key_last_error_class : String
key_last_error_class = "last_error_class"

-- The payload composers, over the text that `uuid.UUID.String` gives an id.
module _ (uuid_text : Uuid → String) where
  unfoldable pub step_payload : Uuid → String → List (String × String)
  step_payload id step = (key_saga_id, uuid_text id) ∷ (key_step_name, step) ∷ []

  unfoldable pub failed_payload : Uuid → String → String → List (String × String)
  failed_payload id step class =
      (key_saga_id, uuid_text id) ∷ (key_step_name, step) ∷ (key_last_error_class, class) ∷ []

  unfoldable pub saga_payload : Uuid → List (String × String)
  saga_payload id = (key_saga_id, uuid_text id) ∷ []

abbrev pub class_default : String
class_default = "step_execute_error"

abbrev pub class_compensate_default : String
class_compensate_default = "step_compensate_error"

abbrev pub class_compensate_canceled : String
class_compensate_canceled = "compensate_context_cancelled"

abbrev pub class_compensate_deadline : String
class_compensate_deadline = "compensate_context_deadline"

abbrev pub class_compensate_panic : String
class_compensate_panic = "compensate_panic"

-- A class that is there and not empty.
abbrev or_class : Option String → String → String
or_class none fallback = fallback
or_class (some class) fallback = if class == "" then fallback else class

unfoldable pub resolve_last_error_class_with_default : Error → String → String
resolve_last_error_class_with_default e fallback = or_class (as_class e) fallback

unfoldable pub resolve_last_error_class : Error → String
unfolding resolve_last_error_class_with_default
resolve_last_error_class e = resolve_last_error_class_with_default e class_default

-- The code's test for a nil error is for a call that the runner does not make.
unfoldable pub resolve_compensate_last_error_class : Error → String
resolve_compensate_last_error_class e = or_class (as_class e) (
    if is_error e canceled
    then class_compensate_canceled
    else if is_error e deadline_exceeded
    then class_compensate_deadline
    else class_compensate_default)
