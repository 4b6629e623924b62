-- ===== src/Approval/Race/Once.antt =====
-- Whatever the order of the steps, a proposal is decided by one event.
use watchkeepers.Prelude.{
  ℕ, ◌≡◌, ◌≢◌, ◌≤◌, refl, ◌∙◌, sym, Bool, true, false, Option, none, some, List, [], ◌∷◌, ◌++◌,
  append-nil, append_assoc, inl, inr, Bool-cases, Option-cases, number_eq, string_eq, arith, ap,
  length,
}
use watchkeepers.Go.Errors.{Error, Result, ok, err}
use watchkeepers.Go.Uuid.{Uuid, nil_uuid}
use watchkeepers.Approval.{
  DecisionKind, Decision, ApprovalEvent, decided, dry_run_requested, question_asked, kind_of,
  proposal_of,
}
use watchkeepers.Approval.Store.{new_proposal_store}
use watchkeepers.Approval.Store.Marks.{conflict}
use watchkeepers.Approval.Callbacks.{Desk, claim, deliver, release}
use watchkeepers.Approval.Callbacks.Outcome.{claim_replay, claim_refused}
use watchkeepers.Approval.Race.{
  Holder, System, Action, claim_action, publish_action, give_up_action, release_action,
  record_action, dry_run_action, question_action, started, published, released, act, acts,
  new_system,
}
use watchkeepers.Approval.Race.Phase.{
  Phase, undecided, held, final, Frame-Phase, delivered, delivered-append,
}
use watchkeepers.Approval.Race.Steps.{
  claim-Phase, publish-Phase, release-Phase, give_up-Phase, record_decisions,
}

-- Every step keeps the phases.
act-Phase : (id : Uuid) (a : Action) (s : System) → id ≢ nil_uuid → Phase id s → Phase id (act a s)
unfolding act deliver published released
act-Phase id (claim_action g c) s real h = elim (Option-cases (s.holders g)) [
  | inl e ↦ rw (e, act) (claim-Phase id s g c e h)
  | inr (x, e) ↦ rw (e, act) h
]
act-Phase id (publish_action g result) s real h = elim (Option-cases (s.holders g)) [
  | inl e ↦ rw (e, act) h
  | inr (x, e) ↦ elim (Bool-cases x.failed) [
    | inl f ↦ rw (e, act) (rw (f, act) h)
    | inr f ↦ rw (e, act) (rw (f, act) (publish-Phase id s g x result e h))
  ]
]
act-Phase id (give_up_action g) s real h = elim (Option-cases (s.holders g)) [
  | inl e ↦ rw (e, act) h
  | inr (x, e) ↦ rw (e, act) (give_up-Phase id s g x e h)
]
act-Phase id (release_action g) s real h = elim (Option-cases (s.holders g)) [
  | inl e ↦ rw (e, act) h
  | inr (x, e) ↦ elim (Bool-cases x.failed) [
    | inl f ↦ rw (e, act) (rw (f, act) (release-Phase id s g x real e h))
    | inr f ↦ rw (e, act) (rw (f, act) h)
  ]
]
act-Phase id (record_action p) s real h =
    Frame-Phase id s _
      (record { decisions = record_decisions p id s; kinds = refl; holders = λ h. inl refl }) h
act-Phase id (dry_run_action e result) s real h =
    Frame-Phase id s _
      (record {
        decisions = refl;
        kinds =
            delivered-append id s.desk.publishes ((dry_run_requested e, result) ∷ [])
            ∙ (unfold delivered in append-nil _);
        holders = λ h. inl refl;
      })
      h
act-Phase id (question_action e result) s real h =
    Frame-Phase id s _
      (record {
        decisions = refl;
        kinds =
            delivered-append id s.desk.publishes ((question_asked e, result) ∷ [])
            ∙ (unfold delivered in append-nil _);
        holders = λ h. inl refl;
      })
      h

acts-Phase :
    (id : Uuid) (as' : List Action) (s : System)
    → id ≢ nil_uuid
    → Phase id s
    → Phase id (acts as' s)
unfolding acts
acts-Phase id [] s real h = h
acts-Phase id (a ∷ as') s real h = acts-Phase id as' (act a s) real (act-Phase id a s real h)

new-Phase : (id : Uuid) → Phase id new_system
unfolding new_system new_proposal_store delivered
new-Phase id = undecided refl refl (λ h. tt)

at_most_one : (id : Uuid) (s : System) → Phase id s → length (delivered id s.desk.publishes) ≤ 1
at_most_one id s (undecided d n a) = rw n (omega arith)
at_most_one id s (held g x e p d n a) = rw n (omega arith)
at_most_one id s (final k d n a) = rw n (omega arith)

-- Whatever clicks and deliveries run on whatever goroutines, in any order and with any failures, the
-- publisher accepts at most one decision event for a proposal.
pub decided_once :
    (id : Uuid) (as' : List Action)
    → id ≢ nil_uuid
    → length (delivered id (acts as' new_system).desk.publishes) ≤ 1
decided_once id as' real = at_most_one id _ (acts-Phase id as' new_system real (new-Phase id))

-- The publisher's calls are only added to.
published-grows :
    (g : ℕ) (x : Holder) (result : Option Error) (s : System)
    → (more : List (ApprovalEvent × Option Error)) × ((published g x result s).desk.publishes
        ≡ s.desk.publishes ++ more)
unfolding published deliver
published-grows g x none s = ((decided x.decision, none) ∷ [], refl)
published-grows g x (some e) s = ((decided x.decision, some e) ∷ [], refl)

started-grows :
    (g : ℕ) (c : Decision) (r : Result Bool) (d : Desk) (s : System)
    → d.publishes ≡ s.desk.publishes
    → (started g c (r, d) s).desk.publishes ≡ s.desk.publishes
unfolding started
started-grows g c (ok true) d s h = h
started-grows g c (ok false) d s h = h
started-grows g c (err e) d s h = h

act-grows :
    (a : Action) (s : System)
    → (more : List (ApprovalEvent × Option Error)) × ((act a s).desk.publishes
        ≡ s.desk.publishes ++ more)
unfolding act deliver released claim release
act-grows (claim_action g c) s = elim (Option-cases (s.holders g)) [
  | inl e ↦ ([], rw (e, act) (started-grows g c _ _ s refl ∙ sym (append-nil s.desk.publishes)))
  | inr (x, e) ↦ ([], rw (e, act) (sym (append-nil s.desk.publishes)))
]
act-grows (publish_action g result) s = elim (Option-cases (s.holders g)) [
  | inl e ↦ ([], rw (e, act) (sym (append-nil s.desk.publishes)))
  | inr (x, e) ↦ elim (Bool-cases x.failed) [
    | inl f ↦ ([], rw (e, act) (rw (f, act) (sym (append-nil s.desk.publishes))))
    | inr f ↦ let (more, q) = published-grows g x result s in (more, rw (e, act) (simp f q))
  ]
]
act-grows (give_up_action g) s = ([], ground (arith, append-nil s.desk.publishes))
act-grows (release_action g) s = ([], ground (arith, append-nil s.desk.publishes))
act-grows (record_action p) s = ([], sym (append-nil s.desk.publishes))
act-grows (dry_run_action e result) s = ((dry_run_requested e, result) ∷ [], refl)
act-grows (question_action e result) s = ((question_asked e, result) ∷ [], refl)

acts-grows :
    (as' : List Action) (s : System)
    → (more : List (ApprovalEvent × Option Error)) × ((acts as' s).desk.publishes
        ≡ s.desk.publishes ++ more)
unfolding acts
acts-grows [] s = ([], sym (append-nil s.desk.publishes))
acts-grows (a ∷ as') s =
    let (m, p) = act-grows a s in
    let (n, q) = acts-grows as' (act a s) in (m ++ n, q ∙ rw (p, append_assoc) refl)

at_most_more : (k : DecisionKind) (ks : List DecisionKind) → length (k ∷ ks) ≤ 1 → ks ≡ []
at_most_more k [] h = refl
at_most_more k (j ∷ ks) h = absurd (omega arith)

decision_of :
    (id : Uuid) (k : DecisionKind) (s : System)
    → Phase id s
    → delivered id s.desk.publishes ≡ k ∷ []
    → s.desk.store.decisions id ≡ some k
decision_of id k s (undecided d n a) e = cc
decision_of id k s (held g x w p d n a) e = cc
decision_of id k s (final j d n a) e = d ∙ ground (arith, sym n ∙ e)

-- What holds from the first accepted event on.
pub record Closed (id : Uuid) (k : DecisionKind) (s : System) : Type 0 where
  pub one_event : delivered id s.desk.publishes ≡ k ∷ []
  pub replays :
      (c : Decision)
      → proposal_of c ≡ id
      → kind_of c ≡ k
      → claim (kind_of c) (proposal_of c) s.desk ≡ (ok false, s.desk)
  pub refuses :
      (c : Decision)
      → proposal_of c ≡ id
      → kind_of c ≢ k
      → claim (kind_of c) (proposal_of c) s.desk ≡ (err conflict, s.desk)

-- Once a decision event was accepted for a proposal, then after any further steps it is still the
-- only one, every claim of the same kind is a replay, and every claim of the other kind is refused
-- with the conflict error.
pub decision_final :
    (id : Uuid) (as' bs : List Action) (k : DecisionKind)
    → id ≢ nil_uuid
    → delivered id (acts as' new_system).desk.publishes ≡ k ∷ []
    → Closed id k (acts bs (acts as' new_system))
decision_final id as' bs k real e =
    let s = acts as' new_system in
    let t = acts bs s in
    let phase = acts-Phase id bs s real (acts-Phase id as' new_system real (new-Phase id)) in
    let (more, q) = acts-grows bs s in
    let kinds : delivered id t.desk.publishes ≡ k ∷ delivered id more =
      ap (delivered id) q
      ∙ delivered-append id s.desk.publishes more
      ∙ ap (λ ks. ks ++ delivered id more) e in
    let one : delivered id t.desk.publishes ≡ k ∷ [] =
      kinds
      ∙ ap (λ ks. k ∷ ks)
          (at_most_more k (delivered id more) (rw kinds at (at_most_one id t phase))) in
    let stored = decision_of id k t phase one in
    record {
      one_event = one;
      replays = λ c p same.
          claim_replay c t.desk (λ z. real (sym p ∙ z))
            (ap t.desk.store.decisions p ∙ stored ∙ ap (λ j. some j) (sym same));
      refuses = λ c p ne.
          claim_refused c t.desk (λ z. real (sym p ∙ z)) k (λ z. ne (sym z))
            (ap t.desk.store.decisions p ∙ stored);
    }
