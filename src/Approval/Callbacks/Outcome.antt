-- ===== src/Approval/Callbacks/Outcome.antt =====
-- What `publishApproved` and `publishRejected` do to the decisions and the publisher.
use watchkeepers.Prelude.{
  String, ◌≡◌, ◌≢◌, ◌↔◌, refl, Bool, true, false, Option, none, some, [], ◌∷◌, ◌++◌, ◌==◌,
  number_eq, string_eq, arith, eq_iff, Option-cases, Bool-cases, inl, inr, ◌⊎◌, put_self, put,
  delete,
}
use watchkeepers.Go.Errors.{Error, text, Result, ok, err}
use watchkeepers.Go.Uuid.{Uuid, nil_uuid}
use watchkeepers.Approval.{DecisionKind, Decision, decided, kind_of, proposal_of}
use watchkeepers.Approval.Store.{mark_decided}
use watchkeepers.Approval.Store.Marks.{conflict, mark_first, mark_replay, mark_refused, unmark_own}
use watchkeepers.Approval.Callbacks.{
  Desk, claim, deliver, release, settle, claimed, publish_decision,
}

abbrev zero_id : Error
zero_id = text "approval: MarkDecided: zero proposal id"

-- The desk with the claim.
abbrev pub won : Decision → Desk → Desk
won c d = record d {
  store = record d.store { decisions = put (proposal_of c) (kind_of c) d.store.decisions };
}

module _ (c : Decision) (d : Desk) (real : proposal_of c ≢ nil_uuid) where
  pub claim_first :
      d.store.decisions (proposal_of c) ≡ none
      → claim (kind_of c) (proposal_of c) d ≡ (ok true, won c d)
  unfolding claim
  claim_first h = rw (mark_first c (proposal_of c) d.store real h)

  pub claim_replay :
      d.store.decisions (proposal_of c) ≡ some (kind_of c)
      → claim (kind_of c) (proposal_of c) d ≡ (ok false, d)
  unfolding claim
  claim_replay h = rw (mark_replay c (proposal_of c) d.store real h)

  pub claim_refused :
      (k : DecisionKind)
      → k ≢ kind_of c
      → d.store.decisions (proposal_of c) ≡ some k
      → claim (kind_of c) (proposal_of c) d ≡ (err conflict, d)
  unfolding claim
  claim_refused k ne h = rw (mark_refused c (proposal_of c) d.store real k ne h)

  pub release_own :
      d.store.decisions (proposal_of c) ≡ some (kind_of c)
      → release (kind_of c) (proposal_of c) d ≡ record d {
        store = record d.store { decisions = delete (proposal_of c) d.store.decisions };
      }
  unfolding release
  release_own h = rw (unmark_own c (proposal_of c) d.store real h)

-- What a claim can come to: nothing, or the first claim.
pub claim-cases :
    (c : Decision) (d : Desk)
    → ((r : Result Bool) × (r ≢ ok true) × (claim (kind_of c) (proposal_of c) d ≡ (r, d)))
      ⊎ ((proposal_of c ≢ nil_uuid)
          × (d.store.decisions (proposal_of c) ≡ none)
          × (claim (kind_of c) (proposal_of c) d ≡ (ok true, won c d)))
claim-cases c d = elim (Bool-cases (proposal_of c == nil_uuid)) [
  | inl z ↦ inl (err zero_id, λ q. cc, unfold claim mark_decided in rw z refl)
  | inr z ↦
      let real : proposal_of c ≢ nil_uuid = λ q. ground (arith, q, z) in
      elim (Option-cases (d.store.decisions (proposal_of c))) [
        | inl h ↦ inr (real, h, claim_first c d real h)
        | inr (k, h) ↦ elim (Bool-cases (k == kind_of c)) [
          | inl e ↦
              inl (ok false, λ q. cc, claim_replay c d real (cc (h, (eq_iff k (kind_of c)).0 e)))
          | inr n ↦ inl (
            err conflict,
            λ q. cc,
            claim_refused c d real k (λ q. cc (n, (eq_iff k (kind_of c)).1 q)) h,
          )
        ]
      ]
]

-- A claim, then a release: each decision is as it was.
pub delete-put :
    (id i : Uuid) (k : DecisionKind) (m : Uuid → Option DecisionKind)
    → m id ≡ none
    → delete id (put id k m) i ≡ m i
delete-put id i k m h = ground arith

-- What a decision comes to: for each state of the proposal's decision, the error, the decisions and
-- the publisher's calls.
pub record Settled (c : Decision) (result : Option Error) (d : Desk) (r : Option Error × Desk)
    : Type 0 where
  pub decided_iff : (r.0 ≡ none) ↔ (r.1.store.decisions (proposal_of c) ≡ some (kind_of c))
  pub restored : r.0 ≢ none → (i : Uuid) → r.1.store.decisions i ≡ d.store.decisions i
  pub published : r.1.publishes ≡ (elim (d.store.decisions (proposal_of c)) [
    | none ↦ d.publishes ++ (decided c, result) ∷ []
    | some k ↦ d.publishes
  ])

-- The first claim: the publisher is called, and a failure gives the claim back.
Settled-first :
    (c : Decision) (failure failed : String) (result : Option Error) (d : Desk)
    (real : proposal_of c ≢ nil_uuid)
    → d.store.decisions (proposal_of c) ≡ none
    → Settled c result d (settle c failure failed result (deliver (decided c) result (won c d)))
unfolding settle deliver
Settled-first c failure failed none d real h = record {
  decided_iff = (λ _. put_self (proposal_of c) (kind_of c) d.store.decisions, λ _. refl);
  restored = λ ne. absurd (ne refl);
  published = rw h;
}
Settled-first c failure failed (some e) d real h =
    let own = put_self (proposal_of c) (kind_of c) d.store.decisions in
    rw
      (release_own c (deliver (decided c) (some e) (won c d)) real (unfold deliver in own), deliver)
      (record {
        decided_iff = (λ q. cc, λ q. ground (arith, h));
        restored = λ ne i. delete-put (proposal_of c) i (kind_of c) d.store.decisions h;
        published = rw h;
      })

Settled-replay :
    (c : Decision) (result : Option Error) (d d' : Desk)
    → d.store.decisions (proposal_of c) ≡ some (kind_of c)
    → d'.store ≡ d.store
    → d'.publishes ≡ d.publishes
    → Settled c result d (none, d')
Settled-replay c result d d' h s p = record {
  decided_iff = (λ _. rw s h, λ _. refl);
  restored = λ ne. absurd (ne refl);
  published = rw (h, p);
}

Settled-conflict :
    (c : Decision) (result : Option Error) (d d' : Desk) (k : DecisionKind) (e : Error)
    → k ≢ kind_of c
    → d.store.decisions (proposal_of c) ≡ some k
    → d'.store ≡ d.store
    → d'.publishes ≡ d.publishes
    → Settled c result d (some e, d')
Settled-conflict c result d d' k e ne h s p = record {
  decided_iff = (λ q. cc, λ q. absurd (ne (cc (q, h, s))));
  restored = λ _ i. rw s;
  published = rw (h, p);
}

-- When the context is not cancelled, a decision on a proposal returns nil exactly if the store then
-- holds it; if it fails every decision is as before; and the publisher is called once if the
-- proposal was undecided, else never.
pub publish_decision_lem :
    (c : Decision) (failure failed duplicate : String) (result : Option Error) (d : Desk)
    → proposal_of c ≢ nil_uuid
    → Settled c result d (publish_decision c failure failed duplicate none result d)
unfolding publish_decision claimed
publish_decision_lem c failure failed duplicate result d real =
    elim (Option-cases (d.store.decisions (proposal_of c))) [
      | inl h ↦ rw (claim_first c d real h) (Settled-first c failure failed result d real h)
      | inr (k, h) ↦ elim (Bool-cases (k == kind_of c)) [
        | inl e ↦
            let same : d.store.decisions (proposal_of c) ≡ some (kind_of c) =
              cc (h, (eq_iff k (kind_of c)).0 e) in
            rw (claim_replay c d real same) (Settled-replay c result d _ same refl refl)
        | inr n ↦
            let ne : k ≢ kind_of c = λ q. cc (n, (eq_iff k (kind_of c)).1 q) in
            rw (claim_refused c d real k ne h)
              (Settled-conflict c result d _ k conflict ne h refl refl)
      ]
    ]
