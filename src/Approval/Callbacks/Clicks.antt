-- ===== src/Approval/Callbacks/Clicks.antt =====
-- What a click publishes.
use watchkeepers.Prelude.{
  String, ◌≡◌, refl, ◌∙◌, Bool, true, false, Option, none, some, [], ◌∷◌, ◌++◌, if◌then◌else◌, ◌==◌,
  string_eq, number_eq, Option-cases, Bool-cases, inl, inr, arith, ap, sym,
}
use mathlib.Core.Path.{subst}
use watchkeepers.Go.Errors.{Error, Result, ok, err, Result-cases}
use watchkeepers.Go.Uuid.{Uuid}
use watchkeepers.Approval.{Proposal, Decision, ApprovalEvent, decided, kind_of, proposal_of}
use watchkeepers.Approval.Store.{ProposalStore, lookup}
use watchkeepers.Approval.Callbacks.{
  Desk, Click, Answers, claim, deliver, release, settle, claimed, publish_decision, approval_of,
  rejection_of, dry_run_of, question_of, button_approve, button_reject, button_test_in_dm,
  publish_approved, publish_rejected, publish_dry_run, publish_question, request_dry_run, branch,
  dispatch, validate_click, new_correlation_id, button_ask_questions,
}

-- The event of a button.
abbrev pub event_of : Answers → Proposal → Click → String → ApprovalEvent
event_of a p c corr_id =
    if c.button == button_approve
    then decided (approval_of p c corr_id a.now)
    else if c.button == button_reject
    then decided (rejection_of p c corr_id a.now)
    else if c.button == button_test_in_dm
    then dry_run_of p c corr_id a.now
    else question_of p c corr_id a.now

-- No call of the publisher, or the one call with `event`.
pub data Calls (event : ApprovalEvent) (result : Option Error) (d e : Desk) : Type 0 where
  silent : e.publishes ≡ d.publishes → Calls event result d e
  spoke : e.publishes ≡ d.publishes ++ (event, result) ∷ [] → Calls event result d e

settle-publishes :
    (c : Decision) (failure failed : String) (result : Option Error) (d : Desk)
    → (settle c failure failed result d).1.publishes ≡ d.publishes
unfolding settle release
settle-publishes c failure failed none d = refl
settle-publishes c failure failed (some e) d = refl

claimed-Calls :
    (c : Decision) (failure failed duplicate : String) (result : Option Error) (r : Result Bool)
    (d e : Desk)
    → e.publishes ≡ d.publishes
    → Calls (decided c) result d (claimed c failure failed duplicate result (r, e)).1
unfolding claimed deliver
claimed-Calls c failure failed duplicate result (err f) d e h = silent h
claimed-Calls c failure failed duplicate result (ok false) d e h = silent h
claimed-Calls c failure failed duplicate result (ok true) d e h =
    spoke (settle-publishes c failure failed result _ ∙ rw h)

publish_decision-Calls :
    (c : Decision) (failure failed duplicate : String) (ctx_err result : Option Error) (d : Desk)
    → Calls (decided c) result d (publish_decision c failure failed duplicate ctx_err result d).1
unfolding publish_decision claim
publish_decision-Calls c failure failed duplicate (some e) result d = silent refl
publish_decision-Calls c failure failed duplicate none result d =
    claimed-Calls c failure failed duplicate result (claim (kind_of c) (proposal_of c) d).0 d
      (claim (kind_of c) (proposal_of c) d).1 refl

module _ (a : Answers) (p : Proposal) (c : Click) (corr_id : String) where
  requested :
      (r : Option (Option Error)) (e : Desk) → (request_dry_run r p c e).1.publishes ≡ e.publishes
  unfolding request_dry_run
  requested none e = refl
  requested (some none) e = refl
  requested (some (some f)) e = refl

  dry_run-Calls :
      (d : Desk)
      → Calls (dry_run_of p c corr_id a.now) a.publish d (publish_dry_run a p c corr_id d).1
  unfolding publish_dry_run deliver
  dry_run-Calls d = elim (Option-cases a.ctx_at_publish) [
    | inr (e, x) ↦ rw (x, publish_dry_run) (silent refl)
    | inl x ↦ elim (Option-cases a.publish) [
      | inr (e, y) ↦
          rw (x, publish_dry_run)
            (rw (y, publish_dry_run)
              (spoke (ap (λ r. d.publishes ++ (dry_run_of p c corr_id a.now, r) ∷ []) y)))
      | inl y ↦
          rw (x, publish_dry_run)
            (rw (y, publish_dry_run)
              (spoke (
                requested a.request_dry_run _
                ∙ ap (λ r. d.publishes ++ (dry_run_of p c corr_id a.now, r) ∷ []) y)))
    ]
  ]

  question-Calls :
      (d : Desk)
      → Calls (question_of p c corr_id a.now) a.publish d (publish_question a p c corr_id d).1
  unfolding publish_question deliver
  question-Calls d = elim (Option-cases a.ctx_at_publish) [
    | inr (e, x) ↦ rw (x, publish_question) (silent refl)
    | inl x ↦ elim (Option-cases a.publish) [
      | inr (e, y) ↦
          rw (x, publish_question)
            (rw (y, publish_question)
              (spoke (ap (λ r. d.publishes ++ (question_of p c corr_id a.now, r) ∷ []) y)))
      | inl y ↦
          rw (x, publish_question)
            (rw (y, publish_question)
              (spoke (ap (λ r. d.publishes ++ (question_of p c corr_id a.now, r) ∷ []) y)))
    ]
  ]

  branch-Calls : (d : Desk) → Calls (event_of a p c corr_id) a.publish d (branch a p c corr_id d).1
  unfolding branch publish_approved publish_rejected
  branch-Calls d = elim (Bool-cases (c.button == button_approve)) [
    | inl x ↦
        rw x (
          publish_decision-Calls (approval_of p c corr_id a.now) _ _ _ a.ctx_at_publish a.publish d)
    | inr x ↦ elim (Bool-cases (c.button == button_reject)) [
      | inl y ↦
          rw (x, y)
            (publish_decision-Calls (rejection_of p c corr_id a.now) _ _ _ a.ctx_at_publish
              a.publish d)
      | inr y ↦ elim (Bool-cases (c.button == button_test_in_dm)) [
        | inl z ↦ rw (x, y, z) (dry_run-Calls d)
        | inr z ↦ elim (Bool-cases (c.button == button_ask_questions)) [
          | inl w ↦ rw (x, y, z, w) (question-Calls d)
          | inr w ↦ rw (x, y, z, w) (silent refl)
        ]
      ]
    ]
  ]

-- What a dispatch publishes.
pub data Dispatched (decode : String → Result Uuid) (a : Answers) (c : Click) (d e : Desk)
    : Type 0 where
  nothing : e.publishes ≡ d.publishes → Dispatched decode a c d e
  one_call :
      (id : Uuid) (p : Proposal) (corr_id : String)
      → decode c.action_id ≡ ok id
      → d.store.items id ≡ some p
      → e.publishes ≡ d.publishes ++ (event_of a p c corr_id, a.publish) ∷ []
      → Dispatched decode a c d e

found :
    (ctx_err : Option Error) (id : Uuid) (s : ProposalStore) (p : Proposal)
    → lookup ctx_err id s ≡ ok p
    → s.items id ≡ some p
unfolding lookup
found (some e) id s p h = cc
found none id s p h = ground (arith, h)

conclude :
    (decode : String → Result Uuid) (a : Answers) (c : Click) (d e : Desk) (id : Uuid)
    (p : Proposal) (corr_id : String)
    → decode c.action_id ≡ ok id
    → d.store.items id ≡ some p
    → Calls (event_of a p c corr_id) a.publish d e
    → Dispatched decode a c d e
conclude decode a c d e id p corr_id x y (silent h) = nothing h
conclude decode a c d e id p corr_id x y (spoke h) = one_call id p corr_id x y h

dispatch-branch :
    (decode : String → Result Uuid) (a : Answers) (c : Click) (d : Desk) (id : Uuid) (p : Proposal)
    (corr_id : String)
    → validate_click c ≡ none
    → a.ctx_at_start ≡ none
    → decode c.action_id ≡ ok id
    → lookup a.ctx_at_lookup id d.store ≡ ok p
    → new_correlation_id "approval: callback id generator: %w" p a.new_uuid ≡ ok corr_id
    → dispatch decode a c d ≡ branch a p c corr_id d
unfolding dispatch branch
dispatch-branch decode a c d id p corr_id x y z u v =
    rw (x, dispatch)
      (rw (y, dispatch) (rw (z, dispatch) (rw (u, dispatch) (rw (v, dispatch) refl))))

-- A click calls the publisher at most once, and only with the event of its button for the stored
-- proposal that its action id names.
dispatch_publishes :
    (decode : String → Result Uuid) (a : Answers) (c : Click) (d : Desk)
    → Dispatched decode a c d (dispatch decode a c d).1
unfolding dispatch
dispatch_publishes decode a c d = elim (Option-cases (validate_click c)) [
  | inr (e, x) ↦ rw (x, dispatch) (nothing refl)
  | inl x ↦ elim (Option-cases a.ctx_at_start) [
    | inr (e, y) ↦ rw (x, dispatch) (rw (y, dispatch) (nothing refl))
    | inl y ↦ elim (Result-cases (decode c.action_id)) [
      | inl (e, z) ↦ rw (x, dispatch) (rw (y, dispatch) (rw (z, dispatch) (nothing refl)))
      | inr (id, z) ↦ elim (Result-cases (lookup a.ctx_at_lookup id d.store)) [
        | inl (e, u) ↦
            rw (x, dispatch) (rw (y, dispatch) (rw (z, dispatch) (rw (u, dispatch) (nothing refl))))
        | inr (p, u) ↦
            elim (Result-cases
              (new_correlation_id "approval: callback id generator: %w" p a.new_uuid)) [
                | inl (e, v) ↦
                    rw (x, dispatch)
                      (rw (y, dispatch)
                        (rw (z, dispatch) (rw (u, dispatch) (rw (v, dispatch) (nothing refl)))))
                | inr (corr_id, v) ↦
                    subst (λ r. Dispatched decode a c d r.1)
                      (sym (dispatch-branch decode a c d id p corr_id x y z u v))
                      (conclude decode a c d _ id p corr_id z (found a.ctx_at_lookup id d.store p u)
                        (branch-Calls a p c corr_id d))
              ]
      ]
    ]
  ]
]
