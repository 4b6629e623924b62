-- ===== src/Approval/Race/Phase.antt =====
-- A proposal is undecided, or claimed by one goroutine, or decided by one event.
use watchkeepers.Prelude.{
  ℕ, ◌≡◌, ◌≢◌, refl, ◌∙◌, sym, true, false, Option, none, some, List, [], ◌∷◌, ◌++◌, append-nil,
  ◌⊎◌, inl, inr, Bool-cases, put, delete, put_ne, ◌==◌, ==_ne, number_eq, string_eq, arith,
  if◌then◌else◌, ap,
}
use mathlib.Core.Path.{subst}
use watchkeepers.Go.Errors.{Error, ok}
use watchkeepers.Go.Uuid.{Uuid}
use watchkeepers.Approval.{
  DecisionKind, Decision, ApprovalEvent, decided, dry_run_requested, question_asked, kind_of,
  proposal_of,
}
use watchkeepers.Approval.Store.Marks.{unmark_other}
use watchkeepers.Approval.Callbacks.{deliver, release}
use watchkeepers.Approval.Callbacks.Outcome.{won}
use watchkeepers.Approval.Race.{Holder, System, started, published, released}

-- The kinds of the decision events that the publisher accepted for a proposal, in order.
unfoldable pub delivered : Uuid → List (ApprovalEvent × Option Error) → List DecisionKind
delivered id [] = []
delivered id ((decided c, none) ∷ rest) =
    let kinds = delivered id rest in if proposal_of c == id then kind_of c ∷ kinds else kinds
delivered id ((decided c, some e) ∷ rest) = delivered id rest
delivered id ((dry_run_requested e, result) ∷ rest) = delivered id rest
delivered id ((question_asked e, result) ∷ rest) = delivered id rest

abbrev pub Away : Uuid → Option Holder → Type 0
Away id none = Unit
Away id (some x) = proposal_of x.decision ≢ id

pub data Phase (id : Uuid) (s : System) : Type 0 where
  undecided :
      s.desk.store.decisions id ≡ none
      → delivered id s.desk.publishes ≡ []
      → ((h : ℕ) → Away id (s.holders h))
      → Phase id s
  held :
      (g : ℕ) (x : Holder)
      → s.holders g ≡ some x
      → proposal_of x.decision ≡ id
      → s.desk.store.decisions id ≡ some (kind_of x.decision)
      → delivered id s.desk.publishes ≡ []
      → ((h : ℕ) → h ≢ g → Away id (s.holders h))
      → Phase id s
  final :
      (k : DecisionKind)
      → s.desk.store.decisions id ≡ some k
      → delivered id s.desk.publishes ≡ k ∷ []
      → ((h : ℕ) → Away id (s.holders h))
      → Phase id s

-- What a step leaves alone.
pub record Frame (id : Uuid) (s t : System) : Type 0 where
  pub decisions : t.desk.store.decisions id ≡ s.desk.store.decisions id
  pub kinds : delivered id t.desk.publishes ≡ delivered id s.desk.publishes
  pub holders :
      (h : ℕ) → (t.holders h ≡ s.holders h) ⊎ (Away id (s.holders h) × Away id (t.holders h))

still-Away :
    (id : Uuid) (s t : System)
    → Frame id s t
    → (h : ℕ) → Away id (s.holders h)
    → Away id (t.holders h)
still-Away id s t f h a = elim (f.holders h) [ inl e ↦ subst (Away id) (sym e) a | inr (_, b) ↦ b ]

still_held :
    (id : Uuid) (s t : System)
    → Frame id s t
    → (g : ℕ) (x : Holder) → s.holders g ≡ some x
    → proposal_of x.decision ≡ id
    → t.holders g ≡ some x
still_held id s t f g x e p = elim (f.holders g) [
  | inl q ↦ q ∙ e
  | inr (a, _) ↦ absurd (subst (Away id) e a p)
]

pub Frame-Phase : (id : Uuid) (s t : System) → Frame id s t → Phase id s → Phase id t
Frame-Phase id s t f (undecided d n a) =
    undecided (f.decisions ∙ d) (f.kinds ∙ n) (λ h. still-Away id s t f h (a h))
Frame-Phase id s t f (held g x e p d n a) =
    held g x (still_held id s t f g x e p) p (f.decisions ∙ d) (f.kinds ∙ n)
      (λ h ne. still-Away id s t f h (a h ne))
Frame-Phase id s t f (final k d n a) =
    final k (f.decisions ∙ d) (f.kinds ∙ n) (λ h. still-Away id s t f h (a h))

pub delivered-append :
    (id : Uuid) (ps qs : List (ApprovalEvent × Option Error))
    → delivered id (ps ++ qs) ≡ delivered id ps ++ delivered id qs
unfolding delivered
delivered-append id [] qs = refl
delivered-append id ((decided c, none) ∷ rest) qs = ground (arith, delivered-append id rest qs)
delivered-append id ((decided c, some e) ∷ rest) qs = delivered-append id rest qs
delivered-append id ((dry_run_requested e, result) ∷ rest) qs = delivered-append id rest qs
delivered-append id ((question_asked e, result) ∷ rest) qs = delivered-append id rest qs

-- Another holder in the place of an absent one, or of one that is away.
pub put-Frame :
    (id : Uuid) (g : ℕ) (y : Holder) (m : ℕ → Option Holder)
    → Away id (m g)
    → proposal_of y.decision ≢ id
    → (h : ℕ) → (put g y m h ≡ m h) ⊎ (Away id (m h) × Away id (put g y m h))
put-Frame id g y m a ne h = elim (Bool-cases (g == h)) [
  | inl e ↦ inr (subst (λ i. Away id (m i)) ((number_eq.same_iff g h).0 e) a, rw e ne)
  | inr e ↦ inl (rw e refl)
]

delete-Frame :
    (id : Uuid) (g : ℕ) (m : ℕ → Option Holder)
    → Away id (m g)
    → (h : ℕ) → (delete g m h ≡ m h) ⊎ (Away id (m h) × Away id (delete g m h))
delete-Frame id g m a h = elim (Bool-cases (g == h)) [
  | inl e ↦ inr (subst (λ i. Away id (m i)) ((number_eq.same_iff g h).0 e) a, rw e tt)
  | inr e ↦ inl (rw e refl)
]

module _ (id : Uuid) (s : System) where
  -- A step of a holder of another proposal.
  pub deliver-Frame :
      (x : Holder) (result : Option Error) (g : ℕ)
      → s.holders g ≡ some x
      → proposal_of x.decision ≢ id
      → Frame id s (published g x result s)
  unfolding published deliver delivered
  deliver-Frame x none g e ne = record {
    decisions = refl;
    kinds =
        delivered-append id s.desk.publishes ((decided x.decision, none) ∷ [])
        ∙ (rw (==_ne (proposal_of x.decision) id ne) (append-nil _));
    holders = delete-Frame id g s.holders (subst (Away id) (sym e) ne);
  }
  deliver-Frame x (some f) g e ne = record {
    decisions = refl;
    kinds = delivered-append id s.desk.publishes ((decided x.decision, some f) ∷ []) ∙ append-nil _;
    holders = put-Frame id g (record x { failed = true }) s.holders (subst (Away id) (sym e) ne) ne;
  }

  pub release-Frame :
      (x : Holder) (g : ℕ)
      → s.holders g ≡ some x
      → proposal_of x.decision ≢ id
      → Frame id s (released g x s)
  unfolding released release
  release-Frame x g e ne = record {
    decisions = unmark_other (kind_of x.decision) (proposal_of x.decision) id s.desk.store ne;
    kinds = refl;
    holders = delete-Frame id g s.holders (subst (Away id) (sym e) ne);
  }

  pub start-Frame :
      (g : ℕ) (c : Decision)
      → s.holders g ≡ none
      → proposal_of c ≢ id
      → Frame id s (started g c (ok true, won c s.desk) s)
  unfolding started
  start-Frame g c e ne = record {
    decisions = put_ne (proposal_of c) id (kind_of c) s.desk.store.decisions ne;
    kinds = refl;
    holders =
        put-Frame id g (record { decision = c; failed = false }) s.holders
          (subst (Away id) (sym e) tt) ne;
  }

  -- The holder of the proposal itself.
  pub holder_of :
      (g : ℕ) (x : Holder)
      → s.holders g ≡ some x
      → proposal_of x.decision ≡ id
      → Phase id s
      → (s.desk.store.decisions id ≡ some (kind_of x.decision))
        × (delivered id s.desk.publishes ≡ [])
        × ((h : ℕ) → h ≢ g → Away id (s.holders h))
  holder_of g x e p (undecided d n a) = absurd (subst (Away id) e (a g) p)
  holder_of g x e p (final k d n a) = absurd (subst (Away id) e (a g) p)
  holder_of g x e p (held g' x' e' p' d n a) = elim (Bool-cases (g == g')) [
    | inl q ↦
        let same : g ≡ g' = (number_eq.same_iff g g').0 q in
        let y : x ≡ x' = ground (arith, sym e ∙ ap s.holders same ∙ e') in
        (d ∙ ap (λ z. some (kind_of z.decision)) (sym y), n, λ h ne. a h (λ w. ne (w ∙ sym same)))
    | inr q ↦ absurd (subst (Away id) e (a g (λ w. cc (q, (number_eq.same_iff g g').1 w))) p)
  ]

pub put-Away :
    (id : Uuid) (g : ℕ) (y : Holder) (m : ℕ → Option Holder)
    → ((h : ℕ) → h ≢ g → Away id (m h))
    → (h : ℕ) → h ≢ g
    → Away id (put g y m h)
put-Away id g y m a h ne = subst (Away id) (sym (put_ne g h y m (λ q. ne (sym q)))) (a h ne)

pub delete-Away :
    (id : Uuid) (g : ℕ) (m : ℕ → Option Holder)
    → ((h : ℕ) → h ≢ g → Away id (m h))
    → (h : ℕ) → Away id (delete g m h)
delete-Away id g m a h = elim (Bool-cases (g == h)) [
  | inl e ↦ rw e tt
  | inr e ↦ rw e (a h (λ q. cc (e, (number_eq.same_iff g h).1 (sym q))))
]
