-- ===== src/Outbox/Lifecycle/Answers.antt =====
-- How often the loop is launched, and what Start and Stop answer.
use watchkeepers.Prelude.{
  ℕ, ◌≤◌, ◌≡◌, ◌⊎◌, ◌↔◌, refl, sym, ap, ◌∙◌, Bool, true, false, Option, none, some, List, [], ◌∷◌,
  get_elem?, update_at, Every, Every-append, Every-map, Every-get, Every-update_at, Option-cases,
  Bool-cases, inl, inr, arith, ◌==◌, number_eq, if_both,
}
use watchkeepers.Go.Errors.{Error, sentinel}
use watchkeepers.Outbox.Lifecycle.{
  ConsumerState, not_started, started, stopped, Once, fresh, running, over, Caller, entered,
  draining, answered, Lifecycle, new_lifecycle, start_from, start, loop_returns, enter_from,
  stop_enter, do_once, stop_from, stop_step, Step, start_op, loop_op, stop_op, stop_step_op, step,
  steps, err_already_stopped, err_not_started,
}

abbrev launches : ConsumerState → ℕ
launches not_started = 0
launches started = 1
launches stopped = 1

abbrev is_stopped : ConsumerState → Bool
is_stopped not_started = false
is_stopped started = false
is_stopped stopped = true

abbrev has_run : Once → Bool
has_run fresh = false
has_run running = true
has_run over = true

abbrev is_over : Once → Bool
is_over fresh = false
is_over running = false
is_over over = true

-- A call of Stop that is past its critical section finds the consumer stopped. One that has returned was
-- refused, or the loop had been cancelled and had returned, and the answer is the loop's error.
abbrev pub Answer : Lifecycle → Option Error → Type 0
Answer s a =
    (a ≡ some (sentinel err_not_started))
    ⊎ (s.cancelled ≡ true) × (s.done ≡ true) × (a ≡ s.stop_err)

abbrev IsAt : Lifecycle → Caller → Type 0
IsAt s entered = is_stopped s.state ≡ true
IsAt s draining = (is_stopped s.state ≡ true) × (s.cancelled ≡ true)
IsAt s (answered a) = Answer s a

pub record IsLinear (s : Lifecycle) : Type 0 where
  pub once_launched : s.launched ≡ launches s.state
  pub by_once : s.cancelled ≡ has_run s.once
  pub by_stop : has_run s.once ≡ true → is_stopped s.state ≡ true
  pub after_launch : s.done ≡ true → 1 ≤ s.launched
  pub after_loop : is_over s.once ≡ true → s.done ≡ true
  pub callers : Every (IsAt s) s.stops

-- What a step keeps for the calls of Stop that it does not move.
record Keeps (s t : Lifecycle) : Type 0 where
  stopping : is_stopped s.state ≡ true → is_stopped t.state ≡ true
  cancelling : s.cancelled ≡ true → t.cancelled ≡ true
  finishing : s.done ≡ true → (t.done ≡ true) × (s.stop_err ≡ t.stop_err)

Keeps-IsAt : (s t : Lifecycle) → Keeps s t → (c : Caller) → IsAt s c → IsAt t c
Keeps-IsAt s t k entered h = k.stopping h
Keeps-IsAt s t k draining (h, g) = (k.stopping h, k.cancelling g)
Keeps-IsAt s t k (answered a) (inl e) = inl e
Keeps-IsAt s t k (answered a) (inr (c, d, e)) =
    let (d', same) = k.finishing d in inr (k.cancelling c, d', e ∙ same)

Keeps-callers : (s t : Lifecycle) → Keeps s t → Every (IsAt s) s.stops → Every (IsAt t) s.stops
Keeps-callers s t k h = Every-map (IsAt s) (IsAt t) s.stops (Keeps-IsAt s t k) h

start_from-IsLinear :
    (k : ConsumerState) (s : Lifecycle) → s.state ≡ k → IsLinear s → IsLinear (start_from k s).1
unfolding start_from
start_from-IsLinear not_started s e h = record {
  once_launched = ground (arith, h.once_launched);
  by_once = h.by_once;
  by_stop = λ r. absurd (cc (ap is_stopped e, h.by_stop r));
  after_launch = λ d. omega arith;
  after_loop = h.after_loop;
  callers =
      Keeps-callers s (start_from not_started s).1
        (record {
          stopping = λ x. absurd (cc (ap is_stopped e, x));
          cancelling = λ x. x;
          finishing = λ x. (x, refl);
        })
        h.callers;
}
start_from-IsLinear started s e h = h
start_from-IsLinear stopped s e h = h

loop_returns-IsLinear :
    (e : Option Error) (s : Lifecycle) → IsLinear s → IsLinear (loop_returns e s)
unfolding loop_returns
loop_returns-IsLinear e s h = elim (Bool-cases (s.launched == 0)) [
  | inl z ↦ simp z h
  | inr n ↦ elim (Bool-cases s.done) [
    | inl d ↦ simp (n, d) h
    | inr d ↦
        simp (n, d)
          (record {
            once_launched = h.once_launched;
            by_once = h.by_once;
            by_stop = h.by_stop;
            after_launch = λ _. ground (arith, n);
            after_loop = λ _. refl;
            callers =
                Keeps-callers s (record s { done = true; stop_err = e })
                  (record {
                    stopping = λ x. x;
                    cancelling = λ x. x;
                    finishing = λ x. absurd (cc (x, d));
                  })
                  h.callers;
          })
  ]
]

enter_from-IsLinear :
    (k : ConsumerState) (s : Lifecycle) → s.state ≡ k → IsLinear s → IsLinear (enter_from k s)
unfolding enter_from
enter_from-IsLinear not_started s e h = record {
  once_launched = h.once_launched;
  by_once = h.by_once;
  by_stop = h.by_stop;
  after_launch = h.after_launch;
  after_loop = h.after_loop;
  callers = Every-append (IsAt s) s.stops _ h.callers (tt, inl refl);
}
enter_from-IsLinear started s e h = record {
  once_launched = h.once_launched ∙ ap launches e;
  by_once = h.by_once;
  by_stop = λ _. refl;
  after_launch = h.after_launch;
  after_loop = h.after_loop;
  callers =
      Every-append (IsAt (enter_from started s)) s.stops _
        (Keeps-callers s (enter_from started s)
          (record { stopping = λ _. refl; cancelling = λ x. x; finishing = λ x. (x, refl) })
          h.callers)
        (tt, refl);
}
enter_from-IsLinear stopped s e h = record {
  once_launched = h.once_launched ∙ ap launches e;
  by_once = h.by_once;
  by_stop = λ _. refl;
  after_launch = h.after_launch;
  after_loop = h.after_loop;
  callers =
      Every-append (IsAt (enter_from stopped s)) s.stops _
        (Keeps-callers s (enter_from stopped s)
          (record { stopping = λ _. refl; cancelling = λ x. x; finishing = λ x. (x, refl) })
          h.callers)
        (tt, refl);
}

do_once-IsLinear :
    (o : Once) (i : ℕ) (s : Lifecycle)
    → s.once ≡ o
    → is_stopped s.state ≡ true
    → IsLinear s
    → IsLinear (do_once o i s)
unfolding do_once
do_once-IsLinear fresh i s e at h = record {
  once_launched = h.once_launched;
  by_once = refl;
  by_stop = λ _. at;
  after_launch = h.after_launch;
  after_loop = λ x. absurd cc;
  callers =
      Every-update_at (IsAt (do_once fresh i s)) i (λ c. draining) s.stops (λ c _ _. (at, refl))
        (Keeps-callers s (do_once fresh i s)
          (record { stopping = λ x. x; cancelling = λ _. refl; finishing = λ x. (x, refl) })
          h.callers);
}
do_once-IsLinear running i s e at h = h
do_once-IsLinear over i s e at h = record {
  once_launched = h.once_launched;
  by_once = h.by_once;
  by_stop = h.by_stop;
  after_launch = h.after_launch;
  after_loop = h.after_loop;
  callers =
      Every-update_at (IsAt s) i (λ c. answered s.stop_err) s.stops
        (λ c _ _. inr (h.by_once ∙ ap has_run e, h.after_loop (ap is_over e), refl)) h.callers;
}

stop_from-IsLinear :
    (c : Caller) (i : ℕ) (s : Lifecycle) → IsAt s c → IsLinear s → IsLinear (stop_from c i s)
unfolding stop_from
stop_from-IsLinear entered i s at h = do_once-IsLinear s.once i s refl at h
stop_from-IsLinear draining i s (at, off) h =
    let finished : Lifecycle = record s {
      once = over;
      stops = update_at i (λ c. answered s.stop_err) s.stops;
    } in
    if_both IsLinear s.done finished s
      (λ d. record {
        once_launched = h.once_launched;
        by_once = off;
        by_stop = λ _. at;
        after_launch = h.after_launch;
        after_loop = λ _. d;
        callers =
            Every-update_at (IsAt finished) i (λ c. answered s.stop_err) s.stops
              (λ c _ _. inr (off, d, refl))
              (Keeps-callers s finished
                (record { stopping = λ x. x; cancelling = λ x. x; finishing = λ x. (x, refl) })
                h.callers);
      })
      (λ d. h)
stop_from-IsLinear (answered a) i s at h = h

step-IsLinear : (o : Step) (s : Lifecycle) → IsLinear s → IsLinear (step o s)
unfolding step start stop_enter stop_step
step-IsLinear start_op s h = start_from-IsLinear s.state s refl h
step-IsLinear (loop_op e) s h = loop_returns-IsLinear e s h
step-IsLinear stop_op s h = enter_from-IsLinear s.state s refl h
step-IsLinear (stop_step_op i) s h = elim (Option-cases (get_elem? s.stops i)) [
  | inl n ↦ rw (n, stop_step) h
  | inr (c, at) ↦
      rw (at, stop_step) (stop_from-IsLinear c i s (Every-get (IsAt s) s.stops i c h.callers at) h)
]

pub steps-IsLinear : (os : List Step) (s : Lifecycle) → IsLinear s → IsLinear (steps os s)
unfolding steps
steps-IsLinear [] s h = h
steps-IsLinear (o ∷ os) s h = steps-IsLinear os (step o s) (step-IsLinear o s h)

new_lifecycle-IsLinear : IsLinear new_lifecycle
unfolding new_lifecycle
new_lifecycle-IsLinear = record {
  once_launched = refl;
  by_once = refl;
  by_stop = λ x. absurd cc;
  after_launch = λ x. absurd cc;
  after_loop = λ x. absurd cc;
  callers = tt;
}

pub reachable-IsLinear : (os : List Step) → IsLinear (steps os new_lifecycle)
reachable-IsLinear os = steps-IsLinear os new_lifecycle new_lifecycle-IsLinear

-- Of a call of Stop that has returned.
abbrev pub IsAnswered : Lifecycle → Caller → Type 0
IsAnswered s entered = Unit
IsAnswered s draining = Unit
IsAnswered s (answered a) = Answer s a

IsAt-IsAnswered : (s : Lifecycle) (c : Caller) → IsAt s c → IsAnswered s c
IsAt-IsAnswered s entered h = tt
IsAt-IsAnswered s draining h = tt
IsAt-IsAnswered s (answered a) h = h

launches-start :
    (k : ConsumerState) (s : Lifecycle) → ((start_from k s).0 ≡ none) ↔ (launches k ≡ 0)
unfolding start_from
launches-start not_started s = (λ _. refl, λ _. refl)
launches-start started s = (λ h. absurd cc, λ h. absurd (omega arith))
launches-start stopped s = (λ h. absurd cc, λ h. absurd (omega arith))

stopped-start :
    (k : ConsumerState) (s : Lifecycle)
    → is_stopped k ≡ true
    → (start_from k s).0 ≡ some (sentinel err_already_stopped)
unfolding start_from
stopped-start not_started s h = absurd cc
stopped-start started s h = absurd cc
stopped-start stopped s h = refl

launches-le : (k : ConsumerState) → launches k ≤ 1
launches-le not_started = omega arith
launches-le started = omega arith
launches-le stopped = omega arith

-- After any steps of any goroutines that call Start and Stop on a new consumer, and whatever its loop
-- returns and when: at most one loop was launched, and Start succeeds exactly if none was; once a Stop has
-- cancelled the loop, Start answers that the consumer is stopped; and every call of Stop that has
-- returned answered ErrNotStarted, or it returned after the loop was cancelled and had returned, with
-- exactly the error that the loop returned.
pub lifecycle_linear :
    (os : List Step)
    → let s = steps os new_lifecycle in
      (s.launched ≤ 1)
      × (((start s).0 ≡ none) ↔ (s.launched ≡ 0))
      × ((s.cancelled ≡ false) ⊎ ((start s).0 ≡ some (sentinel err_already_stopped)))
      × Every (IsAnswered s) s.stops
unfolding start
lifecycle_linear os =
    let s = steps os new_lifecycle in
    let h = reachable-IsLinear os in
    (
      rw h.once_launched (launches-le s.state),
      simp h.once_launched (launches-start s.state s),
      elim (Bool-cases s.cancelled) [
        | inr f ↦ inl f
        | inl y ↦ inr (stopped-start s.state s (h.by_stop (sym h.by_once ∙ y)))
      ],
      Every-map (IsAt s) (IsAnswered s) s.stops (IsAt-IsAnswered s) h.callers,
    )
