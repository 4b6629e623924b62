-- ===== src/Kickoff/Rows.antt =====
-- core/pkg/spawn: the rows of spawnkickoff.go and retirekickoff.go, and what else the two kickoffers
-- differ in.
use watchkeepers.Prelude.{
  String, Bool, true, false, Option, none, some, List, [], ◌∷◌, leb, if◌then◌else◌,
}
use watchkeepers.Go.Text.{concat, first_runes, rune_count}
use watchkeepers.Saga.{Uuid, SagaState, pending, in_flight, completed, failed, Event}

unfoldable pub approval_token_prefix : String → String
approval_token_prefix token =
    if leb (rune_count token) 6 then concat "tok-" token else concat "tok-" (first_runes 6 token)

abbrev pub state_text : SagaState → String
state_text pending = "pending"
state_text in_flight = "in_flight"
state_text completed = "completed"
state_text failed = "failed"

-- Who the rows are about: the saga's row, the token and the agent.
pub record About : Type 0 where
  pub saga_id : Uuid
  pub manifest : Uuid
  pub keeper : Uuid
  pub token : String
  pub agent_id : String

module _ (uuid_text : Uuid → String) where
  unfoldable pub manifest_approved_payload : About → List (String × String)
  manifest_approved_payload a =
      ("manifest_version_id", uuid_text a.manifest)
      ∷ ("approval_token_prefix", approval_token_prefix a.token)
      ∷ ("agent_id", a.agent_id)
      ∷ []

  unfoldable pub replayed_payload : About → SagaState → List (String × String)
  replayed_payload a previous =
      ("saga_id", uuid_text a.saga_id)
      ∷ ("manifest_version_id", uuid_text a.manifest)
      ∷ ("watchkeeper_id", uuid_text a.keeper)
      ∷ ("approval_token_prefix", approval_token_prefix a.token)
      ∷ ("agent_id", a.agent_id)
      ∷ ("previous_status", state_text previous)
      ∷ []

  unfoldable pub manifest_rejected_payload : About → List (String × String)
  manifest_rejected_payload a =
      ("saga_id", uuid_text a.saga_id)
      ∷ ("manifest_version_id", uuid_text a.manifest)
      ∷ ("watchkeeper_id", uuid_text a.keeper)
      ∷ ("approval_token_prefix", approval_token_prefix a.token)
      ∷ ("agent_id", a.agent_id)
      ∷ []

  unfoldable pub retire_approved_payload : About → List (String × String)
  retire_approved_payload a =
      ("manifest_version_id", uuid_text a.manifest)
      ∷ ("watchkeeper_id", uuid_text a.keeper)
      ∷ ("approval_token_prefix", approval_token_prefix a.token)
      ∷ ("agent_id", a.agent_id)
      ∷ []

-- What the two kickoffers differ in. `rejected` is the row after a failed run, if there is one.
pub record Kind : Type 0 where
  pub insert_failed : String
  pub append_replayed_failed : String
  pub append_approved_failed : String
  pub run_failed : String
  pub approved : About → Event
  pub replayed : About → SagaState → Event
  pub rejected : Option (About → Event)
  pub carries_result : Bool

unfoldable pub spawn_kind : (Uuid → String) → Kind
spawn_kind uuid_text = record {
  insert_failed = "spawn: kickoff: insert saga: %w";
  append_replayed_failed = "spawn: kickoff: append manifest_approval_replayed_for_spawn: %w";
  append_approved_failed = "spawn: kickoff: append manifest_approved_for_spawn: %w";
  run_failed = "spawn: kickoff: run saga: %w";
  approved = λ a. record {
    event_type = "manifest_approved_for_spawn";
    payload = manifest_approved_payload uuid_text a;
  };
  replayed = λ a previous. record {
    event_type = "manifest_approval_replayed_for_spawn";
    payload = replayed_payload uuid_text a previous;
  };
  rejected = some (λ a. record {
    event_type = "manifest_rejected_after_spawn_failure";
    payload = manifest_rejected_payload uuid_text a;
  });
  carries_result = false;
}

unfoldable pub retire_kind : (Uuid → String) → Kind
retire_kind uuid_text = record {
  insert_failed = "spawn: retire kickoff: insert saga: %w";
  append_replayed_failed =
      "spawn: retire kickoff: append retire_approval_replayed_for_watchkeeper: %w";
  append_approved_failed = "spawn: retire kickoff: append retire_approved_for_watchkeeper: %w";
  run_failed = "spawn: retire kickoff: run saga: %w";
  approved = λ a. record {
    event_type = "retire_approved_for_watchkeeper";
    payload = retire_approved_payload uuid_text a;
  };
  replayed = λ a previous. record {
    event_type = "retire_approval_replayed_for_watchkeeper";
    payload = replayed_payload uuid_text a previous;
  };
  rejected = none;
  carries_result = true;
}
