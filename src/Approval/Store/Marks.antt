-- ===== src/Approval/Store/Marks.antt =====
-- What the critical sections of the store do to the decisions.
use watchkeepers.Prelude.{
  ◌≡◌, ◌≢◌, refl, true, false, none, some, put, delete, ==_ne, ==_refl, number_eq, string_eq, arith,
}
use watchkeepers.Go.Errors.{Error, sentinel, wrap, ok, err}
use watchkeepers.Go.Uuid.{Uuid, nil_uuid}
use watchkeepers.Approval.{
  DecisionKind, Decision, tool_approved, tool_rejected, kind_of, err_decision_conflict,
}
use watchkeepers.Approval.Store.{
  ProposalStore, mark_decided, unmark_decided, validate_kind, claim_of, withdraw_of,
}

kind_of-valid : (c : Decision) → validate_kind (kind_of c) ≡ none
unfolding validate_kind
kind_of-valid (tool_approved e) = refl
kind_of-valid (tool_rejected e) = refl

abbrev pub conflict : Error
conflict = wrap "%w: prior %q, attempted %q" (sentinel err_decision_conflict)

-- `MarkDecided` for a kind that the dispatcher uses: the first claim, a replay, and a conflict.
module _ (c : Decision) (id : Uuid) (s : ProposalStore) (real : id ≢ nil_uuid) where
  pub mark_first :
      s.decisions id ≡ none
      → mark_decided none id (kind_of c) s
        ≡ (ok true, record s { decisions = put id (kind_of c) s.decisions })
  unfolding mark_decided claim_of
  mark_first h = rw (==_ne id nil_uuid real, kind_of-valid c, h)

  pub mark_replay :
      s.decisions id ≡ some (kind_of c) → mark_decided none id (kind_of c) s ≡ (ok false, s)
  unfolding mark_decided claim_of
  mark_replay h = rw (==_ne id nil_uuid real, kind_of-valid c, h, ==_refl (kind_of c))

  pub mark_refused :
      (k : DecisionKind)
      → k ≢ kind_of c
      → s.decisions id ≡ some k
      → mark_decided none id (kind_of c) s ≡ (err conflict, s)
  unfolding mark_decided claim_of
  mark_refused k ne h = rw (==_ne id nil_uuid real, kind_of-valid c, h, ==_ne k (kind_of c) ne)

  pub unmark_own :
      s.decisions id ≡ some (kind_of c)
      → unmark_decided none id (kind_of c) s
        ≡ (none, record s { decisions = delete id s.decisions })
  unfolding unmark_decided withdraw_of
  unmark_own h = rw (==_ne id nil_uuid real, h, ==_refl (kind_of c))

-- A release of another proposal's claim.
pub unmark_other :
    (k : DecisionKind) (i id : Uuid) (s : ProposalStore)
    → i ≢ id
    → (unmark_decided none i k s).1.decisions id ≡ s.decisions id
unfolding unmark_decided withdraw_of
unmark_other k i id s ne = ground arith
