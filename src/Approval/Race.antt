-- ===== src/Approval/Race.antt =====
-- core/pkg/approval: clicks and webhook deliveries on goroutines of their own. The claim, the
-- publish and the release of a decision are one step each, and the steps come in any order.
pub mod Handlers
pub mod Phase
pub mod Steps
pub mod Once
use watchkeepers.Prelude.{
  ℕ, Bool, true, false, Option, none, some, List, [], ◌∷◌, Map, empty_map, put, delete, number_eq,
  if◌then◌else◌, ◌==◌,
}
use watchkeepers.Go.Errors.{Error, Result, ok, err}
use watchkeepers.Approval.{
  Proposal, DryRunRequested, QuestionAsked, Decision, decided, dry_run_requested, question_asked,
  kind_of, proposal_of, DecisionKind,
}
use watchkeepers.Approval.Store.{new_proposal_store, record_proposal}
use watchkeepers.Approval.Callbacks.{Desk, claim, deliver, release}

-- A goroutine that has won the claim of a decision; `failed` once it will release it.
pub record Holder : Type 0 where
  pub decision : Decision
  pub failed : Bool

pub record System : Type 0 where
  pub desk : Desk
  pub holders : Map ℕ Holder

pub data Action : Type 0 where
  claim_action : ℕ → Decision → Action
  publish_action : ℕ → Option Error → Action
  give_up_action release_action : ℕ → Action
  record_action : Proposal → Action
  dry_run_action : DryRunRequested → Option Error → Action
  question_action : QuestionAsked → Option Error → Action

unfoldable pub new_system : System
new_system = record {
  desk = record { store = new_proposal_store; publishes = []; dry_runs = []; syncs = []; log = [] };
  holders = empty_map;
}

-- The first claim makes the goroutine a holder.
unfoldable pub started : ℕ → Decision → Result Bool × Desk → System → System
started g c (ok true, d) s = record {
  desk = d;
  holders = put g (record { decision = c; failed = false }) s.holders;
}
started g c (ok false, d) s = record s { desk = d }
started g c (err e, d) s = record s { desk = d }

-- A holder whose publish succeeds is done; if it fails the claim is to be released.
unfoldable pub published : ℕ → Holder → Option Error → System → System
published g x none s = record {
  desk = deliver (decided x.decision) none s.desk;
  holders = delete g s.holders;
}
published g x (some e) s = record {
  desk = deliver (decided x.decision) (some e) s.desk;
  holders = put g (record x { failed = true }) s.holders;
}

unfoldable pub released : ℕ → Holder → System → System
released g x s = record {
  desk = release (kind_of x.decision) (proposal_of x.decision) s.desk;
  holders = delete g s.holders;
}

-- A step of a goroutine that is not at that point does nothing.
unfoldable pub act : Action → System → System
act (claim_action g c) s = elim (s.holders g) [
  | some x ↦ s
  | none ↦ started g c (claim (kind_of c) (proposal_of c) s.desk) s
]
act (publish_action g result) s = elim (s.holders g) [
  | none ↦ s
  | some x ↦ if x.failed then s else published g x result s
]
act (give_up_action g) s = elim (s.holders g) [
  | none ↦ s
  | some x ↦ record s { holders = put g (record x { failed = true }) s.holders }
]
act (release_action g) s = elim (s.holders g) [
  | none ↦ s
  | some x ↦ if x.failed then released g x s else s
]
act (record_action p) s = record s {
  desk = record s.desk { store = record_proposal p s.desk.store };
}
act (dry_run_action e result) s = record s { desk = deliver (dry_run_requested e) result s.desk }
act (question_action e result) s = record s { desk = deliver (question_asked e) result s.desk }

unfoldable pub acts : List Action → System → System
acts [] s = s
acts (a ∷ as') s = acts as' (act a s)
