-- ===== src/Approval/Webhook/Settled.antt =====
-- What a webhook delivery does to the decisions.
use watchkeepers.Prelude.{
  ℕ, String, ◌≡◌, ◌≢◌, ◌↔◌, refl, ◌∙◌, Bool, true, false, Option, none, some, ◌==◌, string_eq,
  number_eq, leb, ltb, ◌&&◌, delete, put_self, Option-cases, Bool-cases, inl, inr, eq_iff, ap,
}
use watchkeepers.Go.Errors.{Error, Result, ok, err, is_error}
use watchkeepers.Go.Uuid.{Uuid, nil_uuid}
use watchkeepers.Approval.{
  DecisionKind, Proposal, Decision, approved, rejected, kind_of, proposal_of,
}
use watchkeepers.Approval.Store.Marks.{conflict}
use watchkeepers.Approval.Callbacks.{Desk, claim, deliver, release}
use watchkeepers.Approval.Callbacks.Outcome.{
  won, claim_first, claim_replay, claim_refused, release_own, delete-put,
}
use watchkeepers.Approval.Webhook.{
  WebhookPayload, HookAnswers, hook_approval, hook_rejection, handle_approved, handle_rejected,
  not_claimed, approved_sent, approved_named, approved_mapped, approved_claimed, sync_source,
  unmapped, rejected_sent, rejected_named, rejected_claimed,
}

-- A 2xx status, of those that the handlers write.
abbrev pub is_success : ℕ → Bool
is_success n = leb 200 n && ltb n 300

-- The response is a success exactly if the store then holds this decision; a failure leaves every
-- decision as it was.
pub record Answered (kind : DecisionKind) (id : Uuid) (d : Desk) (r : ℕ × Desk) : Type 0 where
  pub success_iff : (is_success r.0 ≡ true) ↔ (r.1.store.decisions id ≡ some kind)
  pub restored : is_success r.0 ≡ false → (i : Uuid) → r.1.store.decisions i ≡ d.store.decisions i

module _ (c : Decision) (d : Desk) (real : proposal_of c ≢ nil_uuid)
    (free : d.store.decisions (proposal_of c) ≡ none) where
  own : (won c d).store.decisions (proposal_of c) ≡ some (kind_of c)
  own = put_self (proposal_of c) (kind_of c) d.store.decisions

  -- The claim is given back.
  gave_back :
      (status : ℕ) (e e' : Desk)
      → e.store ≡ (won c d).store
      → is_success status ≡ false
      → e'.store ≡ (release (kind_of c) (proposal_of c) e).store
      → Answered (kind_of c) (proposal_of c) d (status, e')
  gave_back status e e' same bad back =
      let held : e.store.decisions (proposal_of c) ≡ some (kind_of c) =
        ap (λ s. s.decisions (proposal_of c)) same ∙ own in
      let after : (i : Uuid) → e'.store.decisions i ≡ d.store.decisions i = λ i.
        ap (λ s. s.decisions i) back
        ∙ ap (λ t. t.store.decisions i) (release_own c e real held)
        ∙ ap (λ s. delete (proposal_of c) s.decisions i) same
        ∙ delete-put (proposal_of c) i (kind_of c) d.store.decisions free in
      record {
        success_iff = (λ q. cc (q, bad), λ q. cc (after (proposal_of c), q, free));
        restored = λ _. after;
      }

  -- The claim stands.
  stood :
      (status : ℕ) (e : Desk)
      → e.store ≡ (won c d).store
      → is_success status ≡ true
      → Answered (kind_of c) (proposal_of c) d (status, e)
  stood status e same good = record {
    success_iff = (λ _. ap (λ s. s.decisions (proposal_of c)) same ∙ own, λ _. good);
    restored = λ q. cc (q, good);
  }

-- Nothing was claimed.
replayed :
    (kind : DecisionKind) (id : Uuid) (d e : Desk)
    → d.store.decisions id ≡ some kind
    → e.store ≡ d.store
    → Answered kind id d (200, e)
replayed kind id d e h same = record {
  success_iff = (λ _. ap (λ s. s.decisions id) same ∙ h, λ _. refl);
  restored = λ q. cc;
}

refused :
    (kind : DecisionKind) (id : Uuid) (p : Proposal) (d : Desk) (k : DecisionKind)
    → k ≢ kind
    → d.store.decisions id ≡ some k
    → Answered kind id d (not_claimed conflict p d)
unfolding not_claimed is_error
refused kind id p d k ne h = record {
  success_iff = (λ q. cc, λ q. absurd (ne (cc (q, h))));
  restored = λ _ i. refl;
}

module _ (a : HookAnswers) (payload : WebhookPayload) (p : Proposal) (d : Desk)
    (real : p.id ≢ nil_uuid) (free : d.store.decisions p.id ≡ none) where
  abbrev approval : Decision
  approval = hook_approval payload p "" "" 0

  abbrev rejection : Decision
  rejection = hook_rejection payload p "" 0

  approved_sent-Answered :
      (result : Option Error) (e : Desk)
      → e.store ≡ (won approval d).store
      → Answered approved p.id d (approved_sent a p result e)
  unfolding approved_sent
  approved_sent-Answered (some f) e same = gave_back approval d real free 500 e _ same refl refl
  approved_sent-Answered none e same = elim (Option-cases a.sync) [
    | inl q ↦ rw q (stood approval d real free 200 e same refl)
    | inr (f, q) ↦ rw q (stood approval d real free 202 e same refl)
  ]

  approved_named-Answered :
      (source : String) (corr : Result String) (e : Desk)
      → e.store ≡ (won approval d).store
      → Answered approved p.id d (approved_named a payload p source corr e)
  unfolding approved_named deliver
  approved_named-Answered source (err f) e same =
      gave_back approval d real free 500 e _ same refl refl
  approved_named-Answered source (ok corr) e same = approved_sent-Answered a.publish _ same

  sync_same :
      (result : Option Error) (source : String) (e : Desk)
      → (sync_source result source p e).store ≡ e.store
  unfolding sync_source
  sync_same none source e = refl
  sync_same (some f) source e = refl

  unmapped-Answered : Answered approved p.id d (unmapped p (won approval d))
  unfolding unmapped
  unmapped-Answered = gave_back approval d real free 422 (won approval d) _ refl refl refl

  approved_mapped-Answered :
      (source : Result String)
      → Answered approved p.id d (approved_mapped a payload p source (won approval d))
  unfolding approved_mapped
  approved_mapped-Answered (err f) = unmapped-Answered
  approved_mapped-Answered (ok source) = elim (Bool-cases (source == "")) [
    | inl q ↦ rw q unmapped-Answered
    | inr q ↦ rw q (approved_named-Answered source _ _ (sync_same a.sync source (won approval d)))
  ]

  rejected_sent-Answered :
      (result : Option Error) (e : Desk)
      → e.store ≡ (won rejection d).store
      → Answered rejected p.id d (rejected_sent p result e)
  unfolding rejected_sent
  rejected_sent-Answered (some f) e same = gave_back rejection d real free 500 e _ same refl refl
  rejected_sent-Answered none e same = stood rejection d real free 200 e same refl

  rejected_named-Answered :
      (corr : Result String)
      → Answered rejected p.id d (rejected_named a payload p corr (won rejection d))
  unfolding rejected_named deliver
  rejected_named-Answered (err f) =
      gave_back rejection d real free 500 (won rejection d) _ refl refl refl
  rejected_named-Answered (ok corr) = rejected_sent-Answered a.publish _ refl

module _ (a : HookAnswers) (payload : WebhookPayload) (p : Proposal) (d : Desk)
    (real : p.id ≢ nil_uuid) (live : a.ctx_at_claim ≡ none) where
  approved_claimed-Answered :
      Answered approved p.id d (approved_claimed a payload p (claim approved p.id d))
  unfolding approved_claimed
  approved_claimed-Answered =
      let c = hook_approval payload p "" "" 0 in
      elim (Option-cases (d.store.decisions p.id)) [
        | inl h ↦
            rw (claim_first c d real h) (approved_mapped-Answered a payload p d real h a.source)
        | inr (k, h) ↦ elim (Bool-cases (k == approved)) [
          | inl e ↦
              let same : d.store.decisions p.id ≡ some approved = cc (h, (eq_iff k approved).0 e) in
              rw (claim_replay c d real same) (replayed approved p.id d _ same refl)
          | inr n ↦
              let ne : k ≢ approved = λ q. cc (n, (eq_iff k approved).1 q) in
              rw (claim_refused c d real k ne h) (refused approved p.id p d k ne h)
        ]
      ]

  rejected_claimed-Answered :
      Answered rejected p.id d (rejected_claimed a payload p (claim rejected p.id d))
  unfolding rejected_claimed
  rejected_claimed-Answered =
      let c = hook_rejection payload p "" 0 in
      elim (Option-cases (d.store.decisions p.id)) [
        | inl h ↦ rw (claim_first c d real h) (rejected_named-Answered a payload p d real h _)
        | inr (k, h) ↦ elim (Bool-cases (k == rejected)) [
          | inl e ↦
              let same : d.store.decisions p.id ≡ some rejected = cc (h, (eq_iff k rejected).0 e) in
              rw (claim_replay c d real same) (replayed rejected p.id d _ same refl)
          | inr n ↦
              let ne : k ≢ rejected = λ q. cc (n, (eq_iff k rejected).1 q) in
              rw (claim_refused c d real k ne h) (refused rejected p.id p d k ne h)
        ]
      ]

  -- When the request is not cancelled before the claim, an approving or a rejecting delivery answers
  -- with a success status exactly if the store then holds its decision; and with any other status
  -- every decision is as it was, so that a retry can succeed.
  pub deliveries_settled :
      Answered approved p.id d (handle_approved a payload p d)
      × Answered rejected p.id d (handle_rejected a payload p d)
  unfolding handle_approved handle_rejected
  deliveries_settled = (rw live approved_claimed-Answered, rw live rejected_claimed-Answered)
