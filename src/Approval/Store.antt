-- ===== src/Approval/Store.antt =====
-- core/pkg/approval/proposalstore.go: the in-memory store. Each method is one critical section. The
-- deep copies of proposals are values here.
pub mod Marks
use watchkeepers.Prelude.{
  String, Bool, true, false, Option, none, some, Map, empty_map, put, delete, if◌then◌else◌, ◌==◌,
  ◌||◌, number_eq, string_eq,
}
use watchkeepers.Go.Errors.{Error, sentinel, text, wrap, Result, ok, err}
use watchkeepers.Go.Uuid.{Uuid, nil_uuid}
use watchkeepers.Approval.{
  DecisionKind, approved, rejected, Proposal, err_proposal_not_found, err_invalid_decision_kind,
  err_decision_conflict,
}

pub record ProposalStore : Type 0 where
  pub items : Map Uuid Proposal
  pub decisions : Map Uuid DecisionKind

unfoldable pub new_proposal_store : ProposalStore
new_proposal_store = record { items = empty_map; decisions = empty_map }

-- `DecisionKind.Validate`.
unfoldable pub validate_kind : DecisionKind → Option Error
validate_kind k =
    if k == approved || k == rejected
    then none
    else some (wrap "%w: %q" (sentinel err_invalid_decision_kind))

-- The critical section of `MarkDecided`, for what the map holds.
claim_of : Option DecisionKind → Uuid → DecisionKind → ProposalStore → Result Bool × ProposalStore
claim_of (some prior) id kind s =
    if prior == kind
    then (ok false, s)
    else (err (wrap "%w: prior %q, attempted %q" (sentinel err_decision_conflict)), s)
claim_of none id kind s = (ok true, record s { decisions = put id kind s.decisions })

unfoldable pub mark_decided :
    Option Error → Uuid → DecisionKind → ProposalStore → Result Bool × ProposalStore
unfolding claim_of validate_kind
mark_decided (some e) id kind s = (err e, s)
mark_decided none id kind s =
    if id == nil_uuid
    then (err (text "approval: MarkDecided: zero proposal id"), s)
    else elim (validate_kind kind) [
      | some e ↦ (err e, s)
      | none ↦ claim_of (s.decisions id) id kind s
    ]

-- The critical section of `UnmarkDecided`.
withdraw_of : Option DecisionKind → Uuid → DecisionKind → ProposalStore → ProposalStore
withdraw_of none id kind s = s
withdraw_of (some prior) id kind s =
    if prior == kind then record s { decisions = delete id s.decisions } else s

unfoldable pub unmark_decided :
    Option Error → Uuid → DecisionKind → ProposalStore → Option Error × ProposalStore
unfolding withdraw_of
unmark_decided (some e) id kind s = (some e, s)
unmark_decided none id kind s =
    if id == nil_uuid
    then (some (text "approval: UnmarkDecided: zero proposal id"), s)
    else (none, withdraw_of (s.decisions id) id kind s)

unfoldable pub record_proposal : Proposal → ProposalStore → ProposalStore
record_proposal p s = if p.id == nil_uuid then s else record s { items = put p.id p s.items }

unfoldable pub lookup : Option Error → Uuid → ProposalStore → Result Proposal
lookup (some e) id s = err e
lookup none id s = elim (s.items id) [
  | none ↦ err (wrap "%w: %s" (sentinel err_proposal_not_found))
  | some p ↦ ok p
]
