-- ===== src/Approval/Race/Steps.antt =====
-- Each step of a goroutine keeps the phases.
use watchkeepers.Prelude.{
  ℕ, ◌≡◌, ◌≢◌, refl, ◌∙◌, sym, Bool, true, false, Option, none, some, [], ◌∷◌, append-nil, inl, inr,
  Bool-cases, put, put_self, ◌==◌, ==_refl, number_eq, string_eq, arith,
}
use mathlib.Core.Path.{subst}
use watchkeepers.Go.Errors.{Error, Result, ok, err}
use watchkeepers.Go.Uuid.{Uuid, nil_uuid}
use watchkeepers.Approval.{Decision, decided, kind_of, proposal_of, Proposal}
use watchkeepers.Approval.Store.{record_proposal}
use watchkeepers.Approval.Callbacks.{claim, deliver}
use watchkeepers.Approval.Callbacks.Outcome.{won, claim-cases, release_own}
use watchkeepers.Approval.Race.{Holder, System, started, published, released}
use watchkeepers.Approval.Race.Phase.{
  Phase, undecided, held, final, Frame-Phase, Away, delivered, delivered-append, deliver-Frame,
  release-Frame, start-Frame, holder_of, put-Away, delete-Away, put-Frame,
}

same_desk :
    (g : ℕ) (c : Decision) (r : Result Bool) (s : System)
    → r ≢ ok true
    → started g c (r, s.desk) s ≡ s
unfolding started
same_desk g c (ok true) s ne = absurd (ne refl)
same_desk g c (ok false) s ne = refl
same_desk g c (err e) s ne = refl

module _ (id : Uuid) (s : System) where
  -- The first claim of the proposal finds it undecided.
  win-Phase :
      (g : ℕ) (c : Decision)
      → proposal_of c ≡ id
      → s.desk.store.decisions id ≡ none
      → Phase id s
      → Phase id (started g c (ok true, won c s.desk) s)
  unfolding started
  win-Phase g c p free (undecided d n a) =
      held g (record { decision = c; failed = false }) (put_self g _ s.holders) p
        (subst (λ i. put (proposal_of c) (kind_of c) s.desk.store.decisions i ≡ some (kind_of c)) p
          (put_self (proposal_of c) (kind_of c) s.desk.store.decisions))
        n (put-Away id g _ s.holders (λ h _. a h))
  win-Phase g c p free (held g' x e q d n a) = cc
  win-Phase g c p free (final k d n a) = cc

  pub claim-Phase :
      (g : ℕ) (c : Decision)
      → s.holders g ≡ none
      → Phase id s
      → Phase id (started g c (claim (kind_of c) (proposal_of c) s.desk) s)
  claim-Phase g c e h = elim (claim-cases c s.desk) [
    | inl (r, ne, q) ↦ rw q (subst (Phase id) (sym (same_desk g c r s ne)) h)
    | inr (real, free, q) ↦ elim (Bool-cases (proposal_of c == id)) [
      | inl same ↦
          let p : proposal_of c ≡ id = (number_eq.same_iff (proposal_of c) id).0 same in
          rw q (win-Phase g c p (subst (λ i. s.desk.store.decisions i ≡ none) p free) h)
      | inr other ↦ rw q (
          Frame-Phase id s _
            (start-Frame id s g c e (λ w. cc (other, (number_eq.same_iff (proposal_of c) id).1 w)))
            h)
    ]
  ]

  publish_own :
      (g : ℕ) (x : Holder) (result : Option Error)
      → proposal_of x.decision ≡ id
      → (s.desk.store.decisions id ≡ some (kind_of x.decision))
        × (delivered id s.desk.publishes ≡ [])
        × ((h : ℕ) → h ≢ g → Away id (s.holders h))
      → Phase id (published g x result s)
  unfolding published deliver delivered
  publish_own g x none p (d, n, a) =
      final (kind_of x.decision) d
        (delivered-append id s.desk.publishes ((decided x.decision, none) ∷ [])
          ∙ rw (n, p, ==_refl id) refl)
        (delete-Away id g s.holders a)
  publish_own g x (some f) p (d, n, a) =
      held g (record x { failed = true }) (put_self g _ s.holders) p d
        (delivered-append id s.desk.publishes ((decided x.decision, some f) ∷ [])
          ∙ append-nil _
          ∙ n)
        (put-Away id g _ s.holders a)

  pub publish-Phase :
      (g : ℕ) (x : Holder) (result : Option Error)
      → s.holders g ≡ some x
      → Phase id s
      → Phase id (published g x result s)
  publish-Phase g x result e h = elim (Bool-cases (proposal_of x.decision == id)) [
    | inl same ↦
        let p : proposal_of x.decision ≡ id =
          (number_eq.same_iff (proposal_of x.decision) id).0 same in
        publish_own g x result p (holder_of id s g x e p h)
    | inr other ↦
        Frame-Phase id s _
          (deliver-Frame id s x result g e
            (λ w. cc (other, (number_eq.same_iff (proposal_of x.decision) id).1 w)))
          h
  ]

  release_own-Phase :
      (g : ℕ) (x : Holder)
      → id ≢ nil_uuid
      → proposal_of x.decision ≡ id
      → (s.desk.store.decisions id ≡ some (kind_of x.decision))
        × (delivered id s.desk.publishes ≡ [])
        × ((h : ℕ) → h ≢ g → Away id (s.holders h))
      → Phase id (released g x s)
  unfolding released
  release_own-Phase g x real p (d, n, a) =
      let freed =
        release_own x.decision s.desk (λ q. real (sym p ∙ q))
          (subst (λ i. s.desk.store.decisions i ≡ some (kind_of x.decision)) (sym p) d) in
      rw freed (undecided (rw (p, ==_refl id) refl) n (delete-Away id g s.holders a))

  pub release-Phase :
      (g : ℕ) (x : Holder)
      → id ≢ nil_uuid
      → s.holders g ≡ some x
      → Phase id s
      → Phase id (released g x s)
  release-Phase g x real e h = elim (Bool-cases (proposal_of x.decision == id)) [
    | inl same ↦
        let p : proposal_of x.decision ≡ id =
          (number_eq.same_iff (proposal_of x.decision) id).0 same in
        release_own-Phase g x real p (holder_of id s g x e p h)
    | inr other ↦
        Frame-Phase id s _
          (release-Frame id s x g e
            (λ w. cc (other, (number_eq.same_iff (proposal_of x.decision) id).1 w)))
          h
  ]

  pub give_up-Phase :
      (g : ℕ) (x : Holder)
      → s.holders g ≡ some x
      → Phase id s
      → Phase id (record s { holders = put g (record x { failed = true }) s.holders })
  give_up-Phase g x e h = elim (Bool-cases (proposal_of x.decision == id)) [
    | inl same ↦
        let p : proposal_of x.decision ≡ id =
          (number_eq.same_iff (proposal_of x.decision) id).0 same in
        let (d, n, a) = holder_of id s g x e p h in
        held g (record x { failed = true }) (put_self g _ s.holders) p d n
          (put-Away id g _ s.holders a)
    | inr other ↦
        let ne : proposal_of x.decision ≢ id =
          λ w. cc (other, (number_eq.same_iff (proposal_of x.decision) id).1 w) in
        Frame-Phase id s _
          (record {
            decisions = refl;
            kinds = refl;
            holders =
                put-Frame id g (record x { failed = true }) s.holders (subst (Away id) (sym e) ne)
                  ne;
          })
          h
  ]

pub record_decisions :
    (p : Proposal) (id : Uuid) (s : System)
    → (record_proposal p s.desk.store).decisions id ≡ s.desk.store.decisions id
unfolding record_proposal
record_decisions p id s = ground arith
