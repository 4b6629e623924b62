-- ===== src/Approval/Webhook.antt =====
-- core/pkg/approval/webhook.go, from the decoded payload on: the handlers of a git-pr decision. What
-- they call answers from `HookAnswers`: each call is made at most once in a delivery.
pub mod Settled
use watchkeepers.Prelude.{
  ℕ, String, Bool, true, false, Option, none, some, List, [], ◌∷◌, ◌++◌, if◌then◌else◌, ◌==◌, ◌||◌,
  string_eq, number_eq,
}
use watchkeepers.Go.Errors.{Error, Result, ok, err, is_error}
use watchkeepers.Go.Context.{canceled, deadline_exceeded}
use watchkeepers.Go.Uuid.{Uuid}
use watchkeepers.Approval.{
  Proposal, Route, route_git_pr, Decision, tool_approved, tool_rejected, decided, approved,
  rejected, err_decision_conflict, err_proposal_not_found,
}
use watchkeepers.Approval.Store.{lookup}
use watchkeepers.Approval.Callbacks.{Desk, add_log, claim, deliver, release, new_correlation_id}

pub record WebhookPayload : Type 0 where
  pub proposal_id : String
  pub action : String
  pub pr_url : String
  pub merged_sha : String
  pub approver : String
  pub timestamp : ℕ

pub record HookAnswers : Type 0 where
  pub ctx_at_lookup : Option Error
  pub ctx_at_claim : Option Error
  pub source : Result String
  pub sync : Option Error
  pub new_uuid : Result String
  pub now : ℕ
  pub publish : Option Error

-- The status codes of the responses.
abbrev pub status_ok : ℕ
status_ok = 200

abbrev pub status_accepted : ℕ
status_accepted = 202

abbrev pub hook_approval : WebhookPayload → Proposal → String → String → ℕ → Decision
hook_approval payload p source corr_id now = tool_approved (record {
  proposal_id = p.id;
  tool_name = p.input.name;
  approver_id = payload.approver;
  route = route_git_pr;
  target_source = p.input.target_source;
  source_name = source;
  pr_url = payload.pr_url;
  merged_sha = payload.merged_sha;
  approved_at = now;
  correlation_id = corr_id;
})

abbrev pub hook_rejection : WebhookPayload → Proposal → String → ℕ → Decision
hook_rejection payload p corr_id now = tool_rejected (record {
  proposal_id = p.id;
  tool_name = p.input.name;
  rejecter_id = payload.approver;
  route = route_git_pr;
  rejected_at = now;
  correlation_id = corr_id;
})

id_failure : String
id_failure = "approval: webhook id generator: %w"

-- The answer to a claim that failed, which both handlers give.
not_claimed : Error → Proposal → Desk → ℕ × Desk
not_claimed e p d =
    if is_error e err_decision_conflict
    then (409, add_log "webhook decision conflict" p.id d)
    else (500, add_log "webhook mark decided failed" p.id d)

-- `handleApproved`, from its end to its beginning: the publish, the correlation id, the sync, the
-- source and the claim.
approved_sent : HookAnswers → Proposal → Option Error → Desk → ℕ × Desk
approved_sent a p (some e) d =
    (500, add_log "webhook publish tool_approved failed" p.id (release approved p.id d))
approved_sent a p none d = elim a.sync [ none ↦ (status_ok, d) | some e ↦ (status_accepted, d) ]

approved_named : HookAnswers → WebhookPayload → Proposal → String → Result String → Desk → ℕ × Desk
unfolding approved_sent
approved_named a payload p source (err e) d =
    (500, add_log "webhook id generator failed" p.id (release approved p.id d))
approved_named a payload p source (ok corr_id) d =
    approved_sent a p a.publish
      (deliver (decided (hook_approval payload p source corr_id a.now)) a.publish d)

sync_source : Option Error → String → Proposal → Desk → Desk
sync_source none source p d = record d { syncs = d.syncs ++ source ∷ [] }
sync_source (some e) source p d =
    add_log "webhook tool source sync failed" p.id (record d { syncs = d.syncs ++ source ∷ [] })

unmapped : Proposal → Desk → ℕ × Desk
unmapped p d = (422, add_log "webhook source mapping failed" p.id (release approved p.id d))

approved_mapped : HookAnswers → WebhookPayload → Proposal → Result String → Desk → ℕ × Desk
unfolding approved_named sync_source unmapped id_failure
approved_mapped a payload p (err e) d = unmapped p d
approved_mapped a payload p (ok source) d =
    if source == ""
    then unmapped p d
    else approved_named a payload p source (new_correlation_id id_failure p a.new_uuid)
        (sync_source a.sync source p d)

approved_claimed : HookAnswers → WebhookPayload → Proposal → Result Bool × Desk → ℕ × Desk
unfolding approved_mapped not_claimed
approved_claimed a payload p (err e, d) = not_claimed e p d
approved_claimed a payload p (ok false, d) =
    (status_ok, add_log "webhook duplicate approved replay" p.id d)
approved_claimed a payload p (ok true, d) = approved_mapped a payload p a.source d

unfoldable pub handle_approved : HookAnswers → WebhookPayload → Proposal → Desk → ℕ × Desk
unfolding approved_claimed
handle_approved a payload p d = elim a.ctx_at_claim [
  | some e ↦ (408, add_log "webhook ctx-cancelled pre-claim" p.id d)
  | none ↦ approved_claimed a payload p (claim approved p.id d)
]

-- `handleRejected`, likewise.
rejected_sent : Proposal → Option Error → Desk → ℕ × Desk
rejected_sent p (some e) d =
    (500, add_log "webhook publish tool_rejected failed" p.id (release rejected p.id d))
rejected_sent p none d = (status_ok, d)

rejected_named : HookAnswers → WebhookPayload → Proposal → Result String → Desk → ℕ × Desk
unfolding rejected_sent
rejected_named a payload p (err e) d =
    (500, add_log "webhook id generator failed" p.id (release rejected p.id d))
rejected_named a payload p (ok corr_id) d =
    rejected_sent p a.publish
      (deliver (decided (hook_rejection payload p corr_id a.now)) a.publish d)

rejected_claimed : HookAnswers → WebhookPayload → Proposal → Result Bool × Desk → ℕ × Desk
unfolding rejected_named not_claimed id_failure
rejected_claimed a payload p (err e, d) = not_claimed e p d
rejected_claimed a payload p (ok false, d) =
    (status_ok, add_log "webhook duplicate rejected replay" p.id d)
rejected_claimed a payload p (ok true, d) =
    rejected_named a payload p (new_correlation_id id_failure p a.new_uuid) d

unfoldable pub handle_rejected : HookAnswers → WebhookPayload → Proposal → Desk → ℕ × Desk
unfolding rejected_claimed
handle_rejected a payload p d = elim a.ctx_at_claim [
  | some e ↦ (408, add_log "webhook ctx-cancelled pre-claim" p.id d)
  | none ↦ rejected_claimed a payload p (claim rejected p.id d)
]

-- `fetchProposal` when the lookup failed.
not_fetched : Error → Uuid → Desk → ℕ × Desk
not_fetched e id d =
    if is_error e err_proposal_not_found
    then (404, add_log "webhook proposal not found" id d)
    else if is_error e canceled || is_error e deadline_exceeded
    then (408, add_log "webhook lookup ctx-cancelled" id d)
    else (500, add_log "webhook lookup failed" id d)

-- `ServeHTTP` once the request is authenticated and its payload decoded and validated.
unfoldable pub serve_payload : HookAnswers → WebhookPayload → Uuid → Desk → ℕ × Desk
unfolding not_fetched
serve_payload a payload id d = elim (lookup a.ctx_at_lookup id d.store) [
  | err e ↦ not_fetched e id d
  | ok p ↦
      if payload.action == approved
      then handle_approved a payload p d
      else if payload.action == rejected
      then handle_rejected a payload p d
      else (400, d)
]
