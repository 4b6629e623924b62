-- ===== src/Approval/Tests.antt =====
-- The approval theorems at a concrete proposal.
use watchkeepers.Prelude.{
  string_eq, ◌≡◌, ◌≢◌, ◌≤◌, refl, none, some, List, [], ◌∷◌, length, empty_map, put, arith,
  number_eq,
}
use watchkeepers.Go.Errors.{sentinel, ok}
use watchkeepers.Go.Uuid.{nil_uuid}
use watchkeepers.Approval.{Proposal, Decision, approved, rejected}
use watchkeepers.Approval.Store.{new_proposal_store, mark_decided, unmark_decided}
use watchkeepers.Approval.Callbacks.{
  Desk, Click, Answers, publish_decision, approval_of, rejection_of, claim, deliver, release,
}
use watchkeepers.Approval.Callbacks.Outcome.{Settled, publish_decision_lem}
use watchkeepers.Approval.Webhook.{WebhookPayload, HookAnswers, handle_approved, handle_rejected}
use watchkeepers.Approval.Webhook.Settled.{Answered, deliveries_settled}
use watchkeepers.Approval.Race.{
  Action, claim_action, publish_action, release_action, act, acts, new_system, started, published,
  released,
}
use watchkeepers.Approval.Race.Phase.{delivered}
use watchkeepers.Approval.Race.Once.{decided_once, decision_final, Closed}
use watchkeepers.Approval.Race.Handlers.{SameEffect, handler, handler_steps}

abbrev proposal : Proposal
proposal = record {
  id = 7;
  proposer_id = "agent";
  input = record {
    name = "tool";
    purpose = "p";
    plain_language_description = "d";
    code_draft = "c";
    capabilities = "fs.read" ∷ [];
    target_source = "private";
  };
  proposed_at = 5;
  correlation_id = "corr";
}

abbrev click : Click
click = record {
  action_id = "tool_approval:7";
  button = "approve";
  lead_id = "U1";
  lead_dm_channel = "";
}

abbrev yes_7 : Decision
yes_7 = approval_of proposal click "corr" 9

abbrev no_7 : Decision
no_7 = rejection_of proposal click "corr" 9

abbrev desk : Desk
desk = record {
  store = record { items = put 7 proposal empty_map; decisions = empty_map };
  publishes = [];
  dry_runs = [];
  syncs = [];
  log = [];
}

real : 7 ≢ nil_uuid
real = λ q. ground arith

abbrev answers : Answers
answers = record {
  ctx_at_start = none;
  ctx_at_lookup = none;
  ctx_at_publish = none;
  now = 9;
  new_uuid = ok "fresh";
  publish = none;
  request_dry_run = none;
}

abbrev hook_answers : HookAnswers
hook_answers = record {
  ctx_at_lookup = none;
  ctx_at_claim = none;
  source = ok "platform";
  sync = none;
  new_uuid = ok "fresh";
  now = 9;
  publish = some (sentinel "bus closed");
}

abbrev payload : WebhookPayload
payload = record {
  proposal_id = "7";
  action = "approved";
  pr_url = "";
  merged_sha = "";
  approver = "U1";
  timestamp = 1;
}

-- Two goroutines: the approval fails first, and then the rejection wins.
abbrev race : List Action
race =
    claim_action 1 yes_7
    ∷ claim_action 2 no_7
    ∷ publish_action 1 (some (sentinel "bus closed"))
    ∷ release_action 1
    ∷ claim_action 2 no_7
    ∷ publish_action 2 none
    ∷ []

won_by_2 : delivered 7 (acts race new_system).desk.publishes ≡ rejected ∷ []
unfolding delivered acts act new_system started published released claim deliver release
    new_proposal_store mark_decided unmark_decided
won_by_2 = refl

decided_once_example : length (delivered 7 (acts race new_system).desk.publishes) ≤ 1
decided_once_example = decided_once 7 race real

decision_final_example : Closed 7 rejected (acts (claim_action 1 yes_7 ∷ []) (acts race new_system))
decision_final_example = decision_final 7 race (claim_action 1 yes_7 ∷ []) rejected real won_by_2

idle : new_system.holders 3 ≡ none
unfolding new_system
idle = refl

handler_steps_example :
    SameEffect
      (acts (handler 3 yes_7 none) new_system).desk
      (publish_decision yes_7 "ErrPublishToolApproved" "publish tool_approved failed"
        "duplicate approve click" none none new_system.desk).1
handler_steps_example =
    handler_steps 3 yes_7 new_system "ErrPublishToolApproved" "publish tool_approved failed"
      "duplicate approve click" none idle

publish_decision_lem_example : Settled yes_7 (some (sentinel "bus closed")) desk (
    publish_decision yes_7 "ErrPublishToolApproved" "publish tool_approved failed"
      "duplicate approve click" none
      (some (sentinel "bus closed"))
      desk)
publish_decision_lem_example =
    publish_decision_lem yes_7 "ErrPublishToolApproved" "publish tool_approved failed"
      "duplicate approve click" (some (sentinel "bus closed")) desk real

deliveries_settled_example :
    Answered approved 7 desk (handle_approved hook_answers payload proposal desk)
    × Answered rejected 7 desk (handle_rejected hook_answers payload proposal desk)
deliveries_settled_example = deliveries_settled hook_answers payload proposal desk real refl
