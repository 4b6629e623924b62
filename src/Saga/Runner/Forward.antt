-- ===== src/Saga/Runner/Forward.antt =====
-- An account of a run's forward part that knows nothing of rows or the store: which steps
-- succeeded, which one failed, and what became of the outside.
use watchkeepers.Prelude.{String, ◌≡◌, Option, none, some, List, [], ◌∷◌}
use watchkeepers.Go.Errors.{Error}
use watchkeepers.Go.Context.{Context}
use watchkeepers.Saga.{Uuid, Event}
use watchkeepers.Saga.Runner.{Step, started_row, completed_row}

pub record Forward (W : Type 0) : Type 0 where
  pub done : List (Step W)
  pub failed_step : Option (Step W × Error)
  pub env : W

module _ {W : Type 0} where
  after : Step W → Option Error × W → Forward W → Forward W
  after step (some e, w) rest = record { done = []; failed_step = some (step, e); env = w }
  after step (none, w) rest = record rest { done = step ∷ rest.done }

  unfoldable pub forward : Context → List (Step W) → W → Forward W
  unfolding after
  forward ctx [] w = record { done = []; failed_step = none; env = w }
  forward ctx (step ∷ rest) w =
      let r = step.execute ctx w in let tail = forward ctx rest r.1 in after step r tail

  -- The rows of the steps that succeeded.
  unfoldable pub forward_rows : (Uuid → String) → Uuid → List (Step W) → List Event
  forward_rows uuid_text id [] = []
  forward_rows uuid_text id (step ∷ rest) =
      started_row uuid_text id step.name
      ∷ completed_row uuid_text id step.name
      ∷ forward_rows uuid_text id rest

  pub forward-success :
      (ctx : Context) (step : Step W) (rest : List (Step W)) (w : W)
      → (step.execute ctx w).0 ≡ none
      → let tail = forward ctx rest (step.execute ctx w).1 in
        forward ctx (step ∷ rest) w ≡ record tail { done = step ∷ tail.done }
  unfolding forward
  forward-success ctx step rest w x = rw (x, after)

  pub forward-failure :
      (ctx : Context) (step : Step W) (rest : List (Step W)) (w : W) (e : Error)
      → (step.execute ctx w).0 ≡ some e
      → forward ctx (step ∷ rest) w
        ≡ record { done = []; failed_step = some (step, e); env = (step.execute ctx w).1 }
  unfolding forward
  forward-failure ctx step rest w e x = rw (x, after)
