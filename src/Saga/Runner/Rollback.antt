-- ===== src/Saga/Runner/Rollback.antt =====
-- The rollback as a walk over the steps in the order in which it undoes them, and that the loop of
-- `compensate` over indices is this walk over the reversed list.
use mathlib.Core.List.{reverse, reverse-cons, reverse-reverse}
use watchkeepers.Prelude.{
  ℕ, suc, String, ◌≡◌, refl, ap, none, some, List, [], ◌∷◌, ◌++◌, length, get_elem?, length-append,
  append_assoc, append-nil, arith, Option-cases, inl, inr, ◌∙◌,
}
use watchkeepers.Go.Context.{Context, without_cancel}
use watchkeepers.Saga.{Uuid, Event, SpawnSagaDao}
use watchkeepers.Saga.Runner.{
  Step, World, safe_compensate, undo_row, compensated_row, emit, compensate_step, compensate_down,
  compensate,
}

module _ {W : Type 0} (uuid_text : Uuid → String) (ctx : Context) (id : Uuid) where
  undo : Step W → W → List Event × W
  unfolding safe_compensate
  undo step w = elim step.compensate [
    | none ↦ ([], w)
    | some c ↦
        let (u, w') = c (without_cancel ctx) w in
        (undo_row uuid_text id step.name (safe_compensate u) ∷ [], w')
  ]

  unfoldable pub rollback : List (Step W) → W → List Event × W
  unfolding undo
  rollback [] w = ([], w)
  rollback (step ∷ rest) w =
      let (row, w') = undo step w in let (rows, w'') = rollback rest w' in (row ++ rows, w'')

get_elem?-middle {ℓ} :
    {A : Type ℓ} (xs : List A) (x : A) (ys : List A) → get_elem? (xs ++ x ∷ ys) (length xs) ≡ some x
get_elem?-middle [] x ys = refl
get_elem?-middle (z ∷ xs) x ys = get_elem?-middle xs x ys

length-reverse {ℓ} : {A : Type ℓ} (xs : List A) → length (reverse xs) ≡ length xs
length-reverse [] = refl
length-reverse (x ∷ xs) =
    rw reverse-cons (omega (arith, length-append (reverse xs) (x ∷ []), length-reverse xs))

module _ {D W : Type 0} (uuid_text : Uuid → String) (dao : SpawnSagaDao D) (ctx : Context)
    (id : Uuid) where
  abbrev undo_all : List (Step W) → World D W → World D W
  undo_all [] s = s
  undo_all (step ∷ rest) s = undo_all rest (compensate_step uuid_text dao ctx id step s)

  compensate_down-suc :
      (i : ℕ) (executed : List (Step W)) (step : Step W) (s : World D W)
      → get_elem? executed i ≡ some step
      → compensate_down uuid_text dao ctx id (suc i) executed s
        ≡ compensate_down uuid_text dao ctx id i executed
            (compensate_step uuid_text dao ctx id step s)
  unfolding compensate_down
  compensate_down-suc i executed step s e = rw (e, compensate_down)

  compensate_down_lem :
      (back later : List (Step W)) (s : World D W)
      → compensate_down uuid_text dao ctx id (length back) (reverse back ++ later) s
        ≡ undo_all back s
  compensate_down_lem [] later s = unfold compensate_down in refl
  compensate_down_lem (step ∷ back) later s =
      rw (reverse-cons, append_assoc)
        (compensate_down-suc (length back) (reverse back ++ step ∷ later) step s
            (rw (← length-reverse back) (get_elem?-middle (reverse back) step later))
          ∙ compensate_down_lem back (step ∷ later) (compensate_step uuid_text dao ctx id step s))

  compensate_step_lem :
      (step : Step W) (s : World D W)
      → compensate_step uuid_text dao ctx id step s ≡ (
          let (row, w) = undo uuid_text ctx id step s.env in
          record s { log = s.log ++ row; env = w })
  unfolding compensate_step undo
  compensate_step_lem step s = elim (Option-cases step.compensate) [
    | inl e ↦ rw (e, append-nil)
    | inr (c, e) ↦ rw e
  ]

  undo_all_lem :
      (back : List (Step W)) (s : World D W)
      → undo_all back s ≡ (
          let (rows, w) = rollback uuid_text ctx id back s.env in
          record s { log = s.log ++ rows; env = w })
  unfolding rollback
  undo_all_lem [] s = rw append-nil
  undo_all_lem (step ∷ back) s = rw compensate_step_lem (
      let (row, w) = undo uuid_text ctx id step s.env in
      undo_all_lem back (record s { log = s.log ++ row; env = w }) ∙ rw append_assoc)

  -- The rollback undoes the executed steps in reverse order, each once, whatever their `Compensate`
  -- returns, and ends with the summary row.
  pub compensate_lem :
      (executed : List (Step W)) (s : World D W)
      → compensate uuid_text dao ctx id executed s ≡ (
          let (rows, w) = rollback uuid_text ctx id (reverse executed) s.env in
          record s { log = (s.log ++ rows) ++ compensated_row uuid_text id ∷ []; env = w })
  compensate_lem executed s =
      let walk = compensate_down_lem (reverse executed) [] s in
      let e : compensate_down uuid_text dao ctx id (length executed) executed s
          ≡ undo_all (reverse executed) s =
        rw (append-nil, reverse-reverse, length-reverse) at walk in
      unfold compensate in
      ap (emit (compensated_row uuid_text id)) (e ∙ undo_all_lem (reverse executed) s)
