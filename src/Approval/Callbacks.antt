-- ===== src/Approval/Callbacks.antt =====
-- core/pkg/approval/callbacks.go: the buttons of the approval card. What the dispatcher calls
-- answers from `Answers`: each call is made at most once in a dispatch.
pub mod Outcome
pub mod Clicks
use watchkeepers.Prelude.{
  ℕ, String, Bytes, Bool, true, false, Option, none, some, List, [], ◌∷◌, ◌++◌, if◌then◌else◌, ◌==◌,
  ◌||◌, ◌&&◌, string_eq,
}
use watchkeepers.Go.Errors.{Error, sentinel, wrap, wrap_two, Result, ok, err}
use watchkeepers.Go.Uuid.{Uuid}
use watchkeepers.Approval.{
  DecisionKind, approved, rejected, Proposal, Route, route_slack_native, ToolApproved, ToolRejected,
  DryRunRequested, QuestionAsked, Decision, tool_approved, tool_rejected, ApprovalEvent, decided,
  dry_run_requested, question_asked, kind_of, proposal_of, err_publish_tool_approved,
  err_publish_tool_rejected, err_publish_dry_run_requested, err_publish_question_asked,
  err_invalid_action_id, err_invalid_button_value, err_card_missing_lead_dm,
}
use watchkeepers.Approval.Store.{ProposalStore, mark_decided, unmark_decided, lookup}

-- `publishes` are the calls of the publisher with their results, `dry_runs` those of the dry-run
-- requester, and `syncs` those of the webhook's syncer, in order; `log` the diagnostics.
pub record Desk : Type 0 where
  pub store : ProposalStore
  pub publishes : List (ApprovalEvent × Option Error)
  pub dry_runs : List (Uuid × String)
  pub syncs : List String
  pub log : List (String × Uuid)

abbrev pub add_log : String → Uuid → Desk → Desk
add_log msg id d = record d { log = d.log ++ (msg, id) ∷ [] }

-- The three sections of a decision: the claim, the publish and the release of the claim. They run
-- under a context without cancellation, whose `Err` is nil.
unfoldable pub claim : DecisionKind → Uuid → Desk → Result Bool × Desk
claim kind id d = let (r, s) = mark_decided none id kind d.store in (r, record d { store = s })

unfoldable pub deliver : ApprovalEvent → Option Error → Desk → Desk
deliver event result d = record d { publishes = d.publishes ++ (event, result) ∷ [] }

unfoldable pub release : DecisionKind → Uuid → Desk → Desk
release kind id d = record d { store = (unmark_decided none id kind d.store).1 }

-- The parts of `publishApproved` and `publishRejected`, which differ in the event, the sentinel and
-- the diagnostics.
unfoldable pub settle : Decision → String → String → Option Error → Desk → Option Error × Desk
settle decision failure failed none d = (none, d)
settle decision failure failed (some e) d = (
  some (wrap_two "%w: %w" (sentinel failure) e),
  add_log failed (proposal_of decision) (release (kind_of decision) (proposal_of decision) d),
)

unfoldable pub claimed :
    Decision → String → String → String → Option Error → Result Bool × Desk → Option Error × Desk
unfolding settle
claimed decision failure failed duplicate result (err e, d) =
    (some e, add_log "mark decided failed" (proposal_of decision) d)
claimed decision failure failed duplicate result (ok false, d) =
    (none, add_log duplicate (proposal_of decision) d)
claimed decision failure failed duplicate result (ok true, d) =
    settle decision failure failed result (deliver (decided decision) result d)

unfoldable pub publish_decision :
    Decision → String → String → String → Option Error → Option Error → Desk → Option Error × Desk
unfolding claimed
publish_decision decision failure failed duplicate (some e) result d = (some e, d)
publish_decision decision failure failed duplicate none result d =
    claimed decision failure failed duplicate result
      (claim (kind_of decision) (proposal_of decision) d)

-- `button` is a `ButtonAction`, a string of which four are valid.
pub record Click : Type 0 where
  pub action_id : String
  pub button : String
  pub lead_id : String
  pub lead_dm_channel : String

abbrev pub button_approve : String
button_approve = "approve"

abbrev pub button_reject : String
button_reject = "reject"

abbrev pub button_test_in_dm : String
button_test_in_dm = "test_in_my_dm"

abbrev pub button_ask_questions : String
button_ask_questions = "ask_questions"

unfoldable pub validate_button : String → Option Error
validate_button b =
    if b == button_approve
      || b == button_reject
      || b == button_test_in_dm
      || b == button_ask_questions
    then none
    else some (wrap "%w: %q" (sentinel err_invalid_button_value))

unfoldable pub validate_click : Click → Option Error
unfolding validate_button
validate_click c =
    if c.action_id == ""
    then some (wrap "%w: empty action_id" (sentinel err_invalid_action_id))
    else if c.lead_id == ""
    then some (wrap "%w: empty lead_id" (sentinel err_invalid_button_value))
    else elim (validate_button c.button) [
      | some e ↦ some e
      | none ↦
          if c.button == button_test_in_dm && c.lead_dm_channel == ""
          then some (sentinel err_card_missing_lead_dm)
          else none
    ]

-- The context's error where `Dispatch`, `Lookup` and the branch read it; the clock; a fresh id in
-- its text form; the publisher; and the dry-run requester, if there is one.
pub record Answers : Type 0 where
  pub ctx_at_start : Option Error
  pub ctx_at_lookup : Option Error
  pub ctx_at_publish : Option Error
  pub now : ℕ
  pub new_uuid : Result String
  pub publish : Option Error
  pub request_dry_run : Option (Option Error)

unfoldable pub new_correlation_id : String → Proposal → Result String → Result String
new_correlation_id failure p fresh =
    if p.correlation_id == ""
    then elim fresh [ ok id ↦ ok id | err e ↦ err (wrap failure e) ]
    else ok p.correlation_id

abbrev pub approval_of : Proposal → Click → String → ℕ → Decision
approval_of p c corr_id now = tool_approved (record {
  proposal_id = p.id;
  tool_name = p.input.name;
  approver_id = c.lead_id;
  route = route_slack_native;
  target_source = p.input.target_source;
  source_name = "";
  pr_url = "";
  merged_sha = "";
  approved_at = now;
  correlation_id = corr_id;
})

abbrev pub rejection_of : Proposal → Click → String → ℕ → Decision
rejection_of p c corr_id now = tool_rejected (record {
  proposal_id = p.id;
  tool_name = p.input.name;
  rejecter_id = c.lead_id;
  route = route_slack_native;
  rejected_at = now;
  correlation_id = corr_id;
})

abbrev pub dry_run_of : Proposal → Click → String → ℕ → ApprovalEvent
dry_run_of p c corr_id now = dry_run_requested (record {
  proposal_id = p.id;
  tool_name = p.input.name;
  requester_id = c.lead_id;
  lead_dm_channel = c.lead_dm_channel;
  requested_at = now;
  correlation_id = corr_id;
})

abbrev pub question_of : Proposal → Click → String → ℕ → ApprovalEvent
question_of p c corr_id now = question_asked (record {
  proposal_id = p.id;
  tool_name = p.input.name;
  asker_id = c.lead_id;
  asked_at = now;
  correlation_id = corr_id;
})

-- The end of `publishDryRun`: the requester, once the event is published.
request_dry_run : Option (Option Error) → Proposal → Click → Desk → Option Error × Desk
request_dry_run none p c d = (none, d)
request_dry_run (some result) p c d =
    let asked = record d { dry_runs = d.dry_runs ++ (p.id, c.lead_dm_channel) ∷ [] } in
    elim result [
      | none ↦ (none, asked)
      | some e ↦ (
        some (wrap "approval: dry-run requester: %w" e),
        add_log "dry-run requester failed" p.id asked,
      )
    ]

publish_dry_run : Answers → Proposal → Click → String → Desk → Option Error × Desk
unfolding request_dry_run
publish_dry_run a p c corr_id d = elim a.ctx_at_publish [
  | some e ↦ (some e, d)
  | none ↦
      let d₁ = deliver (dry_run_of p c corr_id a.now) a.publish d in
      elim a.publish [
        | some e ↦ (
          some (wrap_two "%w: %w" (sentinel err_publish_dry_run_requested) e),
          add_log "publish tool_dry_run_requested failed" p.id d₁,
        )
        | none ↦ request_dry_run a.request_dry_run p c d₁
      ]
]

publish_question : Answers → Proposal → Click → String → Desk → Option Error × Desk
publish_question a p c corr_id d = elim a.ctx_at_publish [
  | some e ↦ (some e, d)
  | none ↦
      let d₁ = deliver (question_of p c corr_id a.now) a.publish d in
      elim a.publish [
        | some e ↦ (
          some (wrap_two "%w: %w" (sentinel err_publish_question_asked) e),
          add_log "publish tool_question_asked failed" p.id d₁,
        )
        | none ↦ (none, d₁)
      ]
]

publish_approved : Answers → Proposal → Click → String → Desk → Option Error × Desk
publish_approved a p c corr_id d =
    publish_decision (approval_of p c corr_id a.now) err_publish_tool_approved
      "publish tool_approved failed" "duplicate approve click" a.ctx_at_publish a.publish d

publish_rejected : Answers → Proposal → Click → String → Desk → Option Error × Desk
publish_rejected a p c corr_id d =
    publish_decision (rejection_of p c corr_id a.now) err_publish_tool_rejected
      "publish tool_rejected failed" "duplicate reject click" a.ctx_at_publish a.publish d

-- The switch of `Dispatch`.
branch : Answers → Proposal → Click → String → Desk → Option Error × Desk
unfolding publish_approved publish_rejected publish_dry_run publish_question
branch a p c corr_id d =
    if c.button == button_approve
    then publish_approved a p c corr_id d
    else if c.button == button_reject
    then publish_rejected a p c corr_id d
    else if c.button == button_test_in_dm
    then publish_dry_run a p c corr_id d
    else if c.button == button_ask_questions
    then publish_question a p c corr_id d
    else (some (wrap "%w: %q" (sentinel err_invalid_button_value)), d)

-- `decode` stands for `DecodeApprovalActionID`.
unfoldable pub dispatch : (String → Result Uuid) → Answers → Click → Desk → Option Error × Desk
unfolding branch
dispatch decode a c d = elim (validate_click c) [
  | some e ↦ (some e, d)
  | none ↦ elim a.ctx_at_start [
    | some e ↦ (some e, d)
    | none ↦ elim (decode c.action_id) [
      | err e ↦ (some e, d)
      | ok id ↦ elim (lookup a.ctx_at_lookup id d.store) [
        | err e ↦ (some e, d)
        | ok p ↦ elim (new_correlation_id "approval: callback id generator: %w" p a.new_uuid) [
          | err e ↦ (some e, d)
          | ok corr_id ↦ branch a p c corr_id d
        ]
      ]
    ]
  ]
]
