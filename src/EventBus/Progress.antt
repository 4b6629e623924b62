-- ===== src/EventBus/Progress.antt =====
-- Steps that lead from one phase of Close to the next, and its wait for the publishers.
use watchkeepers.Prelude.{
  if_both, ◌⊎◌, ℕ, zero, suc, ◌+◌, ◌≤◌, ◌<◌, ◌≡◌, refl, ◌∙◌, ap, Bool, true, false, some, List, [],
  ◌∷◌, ◌++◌, Option-cases, Bool-cases, inl, inr, arith, length, get_elem?, update_at, Every,
  Every-append, total, total-update_at, total-someone, ltb, ◌==◌, string_eq, number_eq,
}
use watchkeepers.Go.Errors.{sentinel}
use watchkeepers.EventBus.{
  Stage, checked, registered, sending, blocked, accepted, refused, Publishing, Phase, signalled,
  closing, Bus, find_topic, set_stage, leave, get_or_create_topic, try_send, send_at, take_done,
  publish_from, publish_step, close_from, close_step, BusOp, start_op, publish_op, subscribe_op,
  unsubscribe_op, work_op, close_op, close_channel_op, bus_op, bus_ops, err_closed,
}
use watchkeepers.EventBus.Orderly.{
  busy, busy_of, PointsBelow, has_begun, is_signalled, IsOrderly, busy_counted,
}
use watchkeepers.EventBus.Closing.{ops-IsOrderly, op-IsOrderly}
use watchkeepers.EventBus.Senders.{open_channel, holds_topic}
use watchkeepers.EventBus.Topics.{get-beyond}

-- The steps of goroutines that are there: no new call of Publish, of Subscribe or of an unsubscribe.
abbrev pub is_own : BusOp → Bool
is_own (start_op topic env) = false
is_own (publish_op p c) = true
is_own (subscribe_op topic) = false
is_own (unsubscribe_op i id) = false
is_own (work_op i) = true
is_own close_op = true
is_own (close_channel_op i) = true

abbrev pub Own : List BusOp → Type 0
Own = Every (λ o. is_own o ≡ true)

-- A state that own steps bring to a phase.
pub record Reaches (ph : Phase) (b : Bus) : Type 0 where
  pub steps : List BusOp
  pub own : Own steps
  pub reached : (bus_ops steps b).phase ≡ ph

pub reach-here : (ph : Phase) (b : Bus) → b.phase ≡ ph → Reaches ph b
unfolding bus_ops
reach-here ph b at = record { steps = []; own = tt; reached = at }

pub reach-step :
    (ph : Phase) (o : BusOp) (b : Bus) → is_own o ≡ true → Reaches ph (bus_op o b) → Reaches ph b
unfolding bus_ops
reach-step ph o b mine r = record { steps = o ∷ r.steps; own = (r.own, mine); reached = r.reached }

pub bus_ops-append :
    (os os' : List BusOp) (b : Bus) → bus_ops (os ++ os') b ≡ bus_ops os' (bus_ops os b)
unfolding bus_ops
bus_ops-append [] os' b = refl
bus_ops-append (o ∷ os) os' b = bus_ops-append os os' (bus_op o b)

-- One phase after another.
pub reach-then :
    (ph ph' : Phase) (b : Bus)
    → IsOrderly b
    → Reaches ph b
    → ((c : Bus) → IsOrderly c → c.phase ≡ ph → Reaches ph' c)
    → Reaches ph' b
reach-then ph ph' b h r next =
    let n = next (bus_ops r.steps b) (ops-IsOrderly r.steps b h) r.reached in
    record {
      steps = r.steps ++ n.steps;
      own = Every-append (λ o. is_own o ≡ true) r.steps n.steps r.own n.own;
      reached = ap (λ z. z.phase) (bus_ops-append r.steps n.steps b) ∙ n.reached;
    }

-- What a call in the wait group has still to do.
abbrev pub to_do : Stage → ℕ
to_do checked = 0
to_do registered = 3
to_do (sending i) = 2
to_do (blocked i) = 1
to_do (accepted i) = 0
to_do (refused e) = 0

abbrev pub to_do_of : Publishing → ℕ
to_do_of x = to_do x.stage

-- A call goes on: it has less to do, and nothing else of the calls or of Close changes.
pub record Advances (p from : ℕ) (b c : Bus) : Type 0 where
  pub next : Stage
  pub less : to_do next < from
  pub publishes : c.publishes ≡ update_at p (λ y. record y { stage = next }) b.publishes
  pub same_phase : c.phase ≡ b.phase

pub send_at-Advances :
    (p i : ℕ) (x : Publishing) (b : Bus)
    → get_elem? b.publishes p ≡ some x
    → busy x.stage ≡ 1
    → i < length b.topics
    → IsOrderly b
    → Advances p 2 b (send_at p i x.envelope (blocked i) b)
unfolding send_at try_send leave set_stage
send_at-Advances p i x b at was below h = elim (Option-cases (get_elem? b.topics i)) [
  | inl n ↦ absurd (omega (arith, below, get-beyond b.topics i n))
  | inr (t, there) ↦
      let is_open = open_channel i t b there (omega (arith, was, busy_counted p x b at h)) h in
      elim (Bool-cases (ltb (length t.sent) (t.received + b.buffer_size))) [
        | inl room ↦
            rw (send_at, there)
              (rw (is_open, room)
                record {
                  next = accepted i;
                  less = omega arith;
                  publishes = refl;
                  same_phase = refl;
                })
        | inr full ↦
            rw (send_at, there)
              (rw (is_open, full)
                record {
                  next = blocked i;
                  less = omega arith;
                  publishes = refl;
                  same_phase = refl;
                })
      ]
]

pub publish_from-Advances :
    (s : Stage) (p : ℕ) (x : Publishing) (b : Bus)
    → x.stage ≡ s
    → busy s ≡ 1
    → get_elem? b.publishes p ≡ some x
    → b.phase ≡ signalled
    → IsOrderly b
    → Advances p (to_do s) b (publish_from s take_done p x b)
unfolding publish_from get_or_create_topic leave set_stage
publish_from-Advances registered p x b st was at ph h =
    let is_closed : b.closed ≡ true = h.flag ∙ ap has_begun ph in
    elim (Option-cases (find_topic x.topic b.topics)) [
      | inr (i, f) ↦
          rw (get_or_create_topic, f)
            record { next = sending i; less = omega arith; publishes = refl; same_phase = refl }
      | inl f ↦
          rw (get_or_create_topic, f)
            (if_both (Advances p 3 b) b.closed _ _
              (λ e. record {
                next = refused (sentinel err_closed);
                less = omega arith;
                publishes = refl;
                same_phase = refl;
              })
              (λ e. absurd (cc (e, is_closed))))
    ]
publish_from-Advances (sending i) p x b st was at ph h =
    let below : PointsBelow (length b.topics) (sending i) = holds_topic (sending i) p x b st at h in
    send_at-Advances p i x b at (ap busy st) below h
publish_from-Advances (blocked i) p x b st was at ph h =
    let is_done : b.done ≡ true = h.done_flag ∙ ap is_signalled ph in
    if_both (Advances p 1 b) b.done _ _
      (λ e. record {
        next = refused (sentinel err_closed);
        less = omega arith;
        publishes = refl;
        same_phase = refl;
      })
      (λ e. absurd (cc (e, is_done)))
publish_from-Advances checked p x b st was at ph h = absurd (omega (arith, was))
publish_from-Advances (accepted i) p x b st was at ph h = absurd (omega (arith, was))
publish_from-Advances (refused e) p x b st was at ph h = absurd (omega (arith, was))

-- A call that is in the wait group goes on with the closed bus.
pub step-Advances :
    (b : Bus)
    → IsOrderly b
    → b.phase ≡ signalled
    → 1 ≤ b.in_flight
    → (p : ℕ) × (total to_do_of (publish_step p take_done b).publishes < total to_do_of b.publishes)
      × ((publish_step p take_done b).phase ≡ b.phase)
unfolding publish_step
step-Advances b h ph some_one =
    let (p, x, at, counts) =
      total-someone busy_of b.publishes (omega (arith, some_one, h.counted)) in
    let step : publish_step p take_done b ≡ publish_from x.stage take_done p x b =
      rw (publish_step, at) refl in
    let a = publish_from-Advances x.stage p x b refl (busy-one x.stage counts) at ph h in
    let moved = total-update_at to_do_of p (λ y. record y { stage = a.next }) b.publishes x at in
    (
      p,
      rw (step, a.publishes) (omega (arith, moved, a.less)),
      ap (λ z. z.phase) step ∙ a.same_phase,
    )
  where
    busy-one : (s : Stage) → 1 ≤ busy s → busy s ≡ 1
    busy-one checked l = absurd (omega (arith, l))
    busy-one registered l = refl
    busy-one (sending i) l = refl
    busy-one (blocked i) l = refl
    busy-one (accepted i) l = absurd (omega (arith, l))
    busy-one (refused e) l = absurd (omega (arith, l))

-- A phase that an own step makes shorter until it is over comes to its end: `n` bounds what is left.
unfoldable pub Shorter : Phase → Phase → (Bus → ℕ) → Bus → Type 0
Shorter ph ph' w b =
    Reaches ph' b
    ⊎ ((o : BusOp) × (is_own o ≡ true) × (w (bus_op o b) < w b) × ((bus_op o b).phase ≡ ph))

pub descend :
    (ph ph' : Phase) (w : Bus → ℕ)
    → ((b : Bus) → IsOrderly b → b.phase ≡ ph → Shorter ph ph' w b)
    → (n : ℕ) (b : Bus) → IsOrderly b
    → b.phase ≡ ph
    → w b ≤ n
    → Reaches ph' b
unfolding Shorter
descend ph ph' w step zero b h at bound = elim (step b h at) [
  | inl r ↦ r
  | inr (o, mine, less, same) ↦ absurd (omega (arith, less, bound))
]
descend ph ph' w step (suc n) b h at bound = elim (step b h at) [
  | inl r ↦ r
  | inr (o, mine, less, same) ↦
      reach-step ph' o b mine (
        descend ph ph' w step n (bus_op o b) (op-IsOrderly o b h) same (omega (arith, less, bound)))
]

-- A step of Close from a phase that is over.
pub close-reach :
    (ph ph' : Phase) (b : Bus) → b.phase ≡ ph → (close_from ph b).phase ≡ ph' → Reaches ph' b
unfolding bus_op close_step
close-reach ph ph' b at next =
    reach-step ph' close_op b refl (reach-here ph' _ (ap (λ z. (close_from z b).phase) at ∙ next))

pub publishers-leave :
    (b : Bus)
    → IsOrderly b
    → b.phase ≡ signalled
    → Shorter signalled closing (λ c. total to_do_of c.publishes) b
unfolding bus_op close_from Shorter
publishers-leave b h ph = elim (Bool-cases (b.in_flight == 0)) [
  | inl e ↦ inl (close-reach signalled closing b ph (rw e refl))
  | inr e ↦
      let (p, less, same) = step-Advances b h ph (ground (arith, e)) in
      inr (publish_op p take_done, refl, less, same ∙ ph)
]
