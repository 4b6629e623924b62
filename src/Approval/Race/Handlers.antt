-- ===== src/Approval/Race/Handlers.antt =====
-- `publishApproved` and `publishRejected` are these steps.
use watchkeepers.Prelude.{
  ℕ, String, ◌≡◌, refl, sym, Bool, true, false, Option, none, some, List, [], ◌∷◌, put, arith,
  number_eq,
}
use mathlib.Core.Path.{subst}
use watchkeepers.Go.Errors.{Error, Result, ok, err}
use watchkeepers.Approval.{Decision, decided, kind_of, proposal_of}
use watchkeepers.Approval.Callbacks.{Desk, claim, deliver, settle, claimed, publish_decision}
use watchkeepers.Approval.Race.{
  System, Action, claim_action, publish_action, release_action, started, published, released, act,
  acts,
}

-- The same store and the same calls of the publisher.
pub record SameEffect (d e : Desk) : Type 0 where
  pub same_store : d.store ≡ e.store
  pub same_publishes : d.publishes ≡ e.publishes

-- The steps of one goroutine that decides.
abbrev pub handler : ℕ → Decision → Option Error → List Action
handler g c result = claim_action g c ∷ publish_action g result ∷ release_action g ∷ []

module _ (g : ℕ) (c : Decision) (s : System) where
  rest : Option Error → System → System
  unfolding act
  rest result t = act (release_action g) (act (publish_action g result) t)

  rest_won :
      (failure failed : String) (result : Option Error) (d : Desk)
      → SameEffect
          (rest result (record {
            desk = d;
            holders = put g (record { decision = c; failed = false }) s.holders;
          })).desk
          (settle c failure failed result (deliver (decided c) result d)).1
  unfolding rest published released settle
  rest_won failure failed none d = record {
    same_store = ground (arith);
    same_publishes = ground (arith);
  }
  rest_won failure failed (some e) d = record {
    same_store = ground (arith);
    same_publishes = ground (arith);
  }

  rest_lost :
      (result : Option Error) (d : Desk)
      → s.holders g ≡ none
      → (rest result (record s { desk = d })).desk ≡ d
  unfolding rest
  rest_lost result d h = ground (arith, h)

  after_claim :
      (failure failed duplicate : String) (result : Option Error) (r : Result Bool) (d : Desk)
      → s.holders g ≡ none
      → SameEffect
          (rest result (started g c (r, d) s)).desk
          (claimed c failure failed duplicate result (r, d)).1
  unfolding started claimed
  after_claim failure failed duplicate result (ok true) d h = rest_won failure failed result d
  after_claim failure failed duplicate result (ok false) d h =
      rw (rest_lost result d h) (record { same_store = refl; same_publishes = refl })
  after_claim failure failed duplicate result (err e) d h =
      rw (rest_lost result d h) (record { same_store = refl; same_publishes = refl })

  first_step :
      s.holders g ≡ none
      → act (claim_action g c) s ≡ started g c (claim (kind_of c) (proposal_of c) s.desk) s
  unfolding act started
  first_step h = rw (h, act) refl

  -- A goroutine that holds no claim and runs the three steps of a decision without interruption has
  -- the effect of the handler on the store and the publisher.
  pub handler_steps :
      (failure failed duplicate : String) (result : Option Error)
      → s.holders g ≡ none
      → SameEffect
          (acts (handler g c result) s).desk
          (publish_decision c failure failed duplicate none result s.desk).1
  unfolding acts publish_decision rest
  handler_steps failure failed duplicate result h =
      subst
        (λ t.
          SameEffect (rest result t).desk
            (publish_decision c failure failed duplicate none result s.desk).1)
        (sym (first_step h))
        (after_claim failure failed duplicate result (claim (kind_of c) (proposal_of c) s.desk).0
          (claim (kind_of c) (proposal_of c) s.desk).1 h)
