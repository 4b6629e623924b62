-- ===== src/Outbox/Lifecycle/Returns.antt =====
-- No call of Stop is left behind once the loop has returned.
use watchkeepers.Prelude.{
  ℕ, ◌≤◌, ◌≡◌, ◌≢◌, refl, ap, ◌∙◌, true, Option, some, List, [], ◌∷◌, get_elem?, update_at,
  Option-cases, inl, inr, arith, ◌==◌, number_eq, if_both, total, total-append, total-update_at,
  get-update-other, get-update-same, total-someone, map,
}
use watchkeepers.Go.Errors.{Error}
use watchkeepers.Outbox.Lifecycle.{
  ConsumerState, not_started, started, stopped, Once, fresh, running, over, Caller, entered,
  draining, answered, Lifecycle, new_lifecycle, start_from, start, loop_returns, enter_from,
  stop_enter, do_once, stop_from, stop_step, Step, start_op, loop_op, stop_op, stop_step_op, step,
  steps,
}

abbrev drains : Caller → ℕ
drains entered = 0
drains draining = 1
drains (answered a) = 0

abbrev runs : Once → ℕ
runs fresh = 0
runs running = 1
runs over = 0

-- The function of the once has one caller, while it runs.
abbrev OneRunner : Lifecycle → Type 0
OneRunner s = total drains s.stops ≡ runs s.once

start_from-OneRunner :
    (k : ConsumerState) (s : Lifecycle) → OneRunner s → OneRunner (start_from k s).1
unfolding start_from
start_from-OneRunner not_started s h = h
start_from-OneRunner started s h = h
start_from-OneRunner stopped s h = h

enter_from-OneRunner :
    (k : ConsumerState) (s : Lifecycle) → OneRunner s → OneRunner (enter_from k s)
unfolding enter_from
enter_from-OneRunner not_started s h =
    omega (arith, h, total-append drains s.stops (answered _ ∷ []))
enter_from-OneRunner started s h = omega (arith, h, total-append drains s.stops (entered ∷ []))
enter_from-OneRunner stopped s h = omega (arith, h, total-append drains s.stops (entered ∷ []))

do_once-OneRunner :
    (o : Once) (i : ℕ) (s : Lifecycle)
    → s.once ≡ o
    → get_elem? s.stops i ≡ some entered
    → OneRunner s
    → OneRunner (do_once o i s)
unfolding do_once
do_once-OneRunner fresh i s e at h =
    omega (arith, h, ap runs e, total-update_at drains i (λ c. draining) s.stops entered at)
do_once-OneRunner running i s e at h = h
do_once-OneRunner over i s e at h =
    omega (arith, h, total-update_at drains i (λ c. answered s.stop_err) s.stops entered at)

stop_from-OneRunner :
    (c : Caller) (i : ℕ) (s : Lifecycle)
    → get_elem? s.stops i ≡ some c
    → OneRunner s
    → OneRunner (stop_from c i s)
unfolding stop_from
stop_from-OneRunner entered i s at h = do_once-OneRunner s.once i s refl at h
stop_from-OneRunner draining i s at h =
    if_both OneRunner s.done _ s (λ d. all_out s.once refl) (λ d. h)
  where
    runs-le : (o : Once) → runs o ≤ 1
    runs-le fresh = omega arith
    runs-le running = omega arith
    runs-le over = omega arith

    all_out :
        (o : Once) → s.once ≡ o → total drains (update_at i (λ c. answered s.stop_err) s.stops) ≡ 0
    all_out o e = omega (
      arith,
      h,
      ap runs e,
      runs-le o,
      total-update_at drains i (λ c. answered s.stop_err) s.stops draining at,
    )
stop_from-OneRunner (answered a) i s at h = h

step-OneRunner : (o : Step) (s : Lifecycle) → OneRunner s → OneRunner (step o s)
unfolding step start stop_enter stop_step loop_returns
step-OneRunner start_op s h = start_from-OneRunner s.state s h
step-OneRunner (loop_op e) s h =
    if_both OneRunner (s.launched == 0) s _ (λ _. h)
      (λ _. if_both OneRunner s.done s _ (λ _. h) (λ _. h))
step-OneRunner stop_op s h = enter_from-OneRunner s.state s h
step-OneRunner (stop_step_op i) s h = elim (Option-cases (get_elem? s.stops i)) [
  | inl n ↦ rw (n, stop_step) h
  | inr (c, at) ↦ rw (at, stop_step) (stop_from-OneRunner c i s at h)
]

steps-OneRunner : (os : List Step) (s : Lifecycle) → OneRunner s → OneRunner (steps os s)
unfolding steps
steps-OneRunner [] s h = h
steps-OneRunner (o ∷ os) s h = steps-OneRunner os (step o s) (step-OneRunner o s h)

-- Steps of calls of Stop that lead to the answer of one.
pub record Returns (s : Lifecycle) (i : ℕ) : Type 0 where
  pub moves : List ℕ
  pub answer : Option Error
  pub returned : get_elem? (steps (map stop_step_op moves) s).stops i ≡ some (answered answer)

move : (j i : ℕ) (s : Lifecycle) → Returns (stop_step j s) i → Returns s i
unfolding steps step
move j i s r = record { moves = j ∷ r.moves; answer = r.answer; returned = r.returned }

stays :
    (i : ℕ) (s : Lifecycle) (a : Option Error)
    → get_elem? s.stops i ≡ some (answered a)
    → Returns s i
unfolding steps
stays i s a h = record { moves = []; answer = a; returned = h }

abbrev drained : ℕ → Lifecycle → Lifecycle
drained j s = record s { once = over; stops = update_at j (λ c. answered s.stop_err) s.stops }

draining-step :
    (j : ℕ) (s : Lifecycle)
    → s.done ≡ true
    → get_elem? s.stops j ≡ some draining
    → stop_step j s ≡ drained j s
unfolding stop_step stop_from
draining-step j s d at =
    rw (at, stop_step) (if_both (λ z. z ≡ drained j s) s.done _ s (λ _. refl) (λ f. absurd cc))

draining-Returns :
    (i : ℕ) (s : Lifecycle) → s.done ≡ true → get_elem? s.stops i ≡ some draining → Returns s i
draining-Returns i s d at = move i i s (
    rw (draining-step i s d at) (
      stays i (drained i s) s.stop_err
        (get-update-same i (λ c. answered s.stop_err) s.stops draining at)))

entered-step :
    (i : ℕ) (s : Lifecycle) (o : Once)
    → s.once ≡ o
    → get_elem? s.stops i ≡ some entered
    → stop_step i s ≡ do_once o i s
unfolding stop_step stop_from
entered-step i s o e at = rw (at, stop_step) (ap (λ z. do_once z i s) e)

over-Returns :
    (i : ℕ) (s : Lifecycle) → s.once ≡ over → get_elem? s.stops i ≡ some entered → Returns s i
unfolding do_once
over-Returns i s e at = move i i s (
    rw (entered-step i s over e at)
      (stays i _ s.stop_err (get-update-same i (λ c. answered s.stop_err) s.stops entered at)))

entered-Returns :
    (o : Once) (i : ℕ) (s : Lifecycle)
    → s.once ≡ o
    → OneRunner s
    → s.done ≡ true
    → get_elem? s.stops i ≡ some entered
    → Returns s i
unfolding do_once
entered-Returns over i s e h d at = over-Returns i s e at
entered-Returns fresh i s e h d at = move i i s (
    rw (entered-step i s fresh e at) (
      draining-Returns i (do_once fresh i s) d
        (get-update-same i (λ c. draining) s.stops entered at)))
entered-Returns running i s e h d at =
    let (j, c, there, counts) = total-someone drains s.stops (omega (arith, h, ap runs e)) in
    let runner : get_elem? s.stops j ≡ some draining = there ∙ ap some (is_draining c counts) in
    let apart : j ≢ i = λ same. let twice : some draining ≡ some entered = cc in absurd cc in
    move j i s (
      rw (draining-step j s d runner) (
        over-Returns i (drained j s) refl
          (get-update-other j (λ c. answered s.stop_err) s.stops i apart ∙ at)))
  where
    is_draining : (c : Caller) → 1 ≤ drains c → c ≡ draining
    is_draining entered l = absurd (omega (arith, l))
    is_draining draining l = refl
    is_draining (answered a) l = absurd (omega (arith, l))

-- After any steps on a new consumer in which its loop has returned, every call of Stop that is there can
-- go on to its return by steps of calls of Stop alone.
stop-Returns :
    (os : List Step) (i : ℕ) (c : Caller)
    → (steps os new_lifecycle).done ≡ true
    → get_elem? (steps os new_lifecycle).stops i ≡ some c
    → Returns (steps os new_lifecycle) i
stop-Returns os i (answered a) d at = stays i (steps os new_lifecycle) a at
stop-Returns os i draining d at = draining-Returns i (steps os new_lifecycle) d at
stop-Returns os i entered d at =
    entered-Returns (steps os new_lifecycle).once i (steps os new_lifecycle) refl
      (steps-OneRunner os new_lifecycle (unfold new_lifecycle in refl)) d at
