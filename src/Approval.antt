-- ===== src/Approval.antt =====
-- core/pkg/approval: proposals, the events about them, and the store of decisions. Approval/Store
-- is proposalstore.go, Approval/ActionId the action id of card.go, Approval/Callbacks callbacks.go
-- and Approval/Webhook webhook.go; Approval/Race runs their steps in any order.
pub mod Store
pub mod ActionId
pub mod Callbacks
pub mod Webhook
pub mod Race
mod Tests
use watchkeepers.Prelude.{ℕ, String, Option, none, some, List}
use watchkeepers.Go.Errors.{Error}
use watchkeepers.Go.Uuid.{Uuid}

-- A `DecisionKind` is a string, of which two are valid.
abbrev pub DecisionKind : Type 0
DecisionKind = String

abbrev pub approved : DecisionKind
approved = "approved"

abbrev pub rejected : DecisionKind
rejected = "rejected"

pub record ProposalInput : Type 0 where
  pub name : String
  pub purpose : String
  pub plain_language_description : String
  pub code_draft : String
  pub capabilities : List String
  pub target_source : String

pub record Proposal : Type 0 where
  pub id : Uuid
  pub proposer_id : String
  pub input : ProposalInput
  pub proposed_at : ℕ
  pub correlation_id : String

pub data Route : Type 0 where
  route_git_pr route_slack_native : Route

pub record ToolApproved : Type 0 where
  pub proposal_id : Uuid
  pub tool_name : String
  pub approver_id : String
  pub route : Route
  pub target_source : String
  pub source_name : String
  pub pr_url : String
  pub merged_sha : String
  pub approved_at : ℕ
  pub correlation_id : String

pub record ToolRejected : Type 0 where
  pub proposal_id : Uuid
  pub tool_name : String
  pub rejecter_id : String
  pub route : Route
  pub rejected_at : ℕ
  pub correlation_id : String

pub record DryRunRequested : Type 0 where
  pub proposal_id : Uuid
  pub tool_name : String
  pub requester_id : String
  pub lead_dm_channel : String
  pub requested_at : ℕ
  pub correlation_id : String

pub record QuestionAsked : Type 0 where
  pub proposal_id : Uuid
  pub tool_name : String
  pub asker_id : String
  pub asked_at : ℕ
  pub correlation_id : String

-- The two events that end a proposal, and all four; the constructor stands for the topic.
pub data Decision : Type 0 where
  tool_approved : ToolApproved → Decision
  tool_rejected : ToolRejected → Decision

pub data ApprovalEvent : Type 0 where
  decided : Decision → ApprovalEvent
  dry_run_requested : DryRunRequested → ApprovalEvent
  question_asked : QuestionAsked → ApprovalEvent

abbrev pub kind_of : Decision → DecisionKind
kind_of (tool_approved e) = approved
kind_of (tool_rejected e) = rejected

abbrev pub proposal_of : Decision → Uuid
proposal_of (tool_approved e) = e.proposal_id
proposal_of (tool_rejected e) = e.proposal_id

abbrev pub err_proposal_not_found : String
err_proposal_not_found = "ErrProposalNotFound"

abbrev pub err_invalid_decision_kind : String
err_invalid_decision_kind = "ErrInvalidDecisionKind"

abbrev pub err_decision_conflict : String
err_decision_conflict = "ErrDecisionConflict"

abbrev pub err_publish_tool_approved : String
err_publish_tool_approved = "ErrPublishToolApproved"

abbrev pub err_publish_tool_rejected : String
err_publish_tool_rejected = "ErrPublishToolRejected"

abbrev pub err_publish_dry_run_requested : String
err_publish_dry_run_requested = "ErrPublishDryRunRequested"

abbrev pub err_publish_question_asked : String
err_publish_question_asked = "ErrPublishQuestionAsked"

abbrev pub err_invalid_action_id : String
err_invalid_action_id = "ErrInvalidActionID"

abbrev pub err_invalid_button_value : String
err_invalid_button_value = "ErrInvalidButtonValue"

abbrev pub err_card_missing_lead_dm : String
err_card_missing_lead_dm = "ErrCardMissingLeadDM"
