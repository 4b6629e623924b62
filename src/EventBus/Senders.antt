-- ===== src/EventBus/Senders.antt =====
-- Every step of a call of Publish keeps the bus orderly.
use watchkeepers.Prelude.{
  if_both, ℕ, ◌+◌, ◌≤◌, ◌<◌, ◌≡◌, refl, ap, false, some, [], ◌∷◌, ◌++◌, Option-cases, Bool-cases,
  inl, inr, arith, length, get_elem?, length-append, Every-get, ltb, string_eq, number_eq,
}
use watchkeepers.Go.Errors.{sentinel}
use watchkeepers.EventBus.{
  TopicState, Stage, checked, registered, sending, blocked, accepted, refused, Publishing, Phase,
  opened, marked, signalled, closing, waiting, finished, Bus, new_topic, find_topic, set_stage,
  publish_register, get_or_create_topic, try_send, send_at, Choice, take_send, take_cancel,
  take_done, publish_from, publish_step, err_closed,
}
use watchkeepers.EventBus.Orderly.{
  busy, taken_by, PointsBelow, is_past_wait, Fits, IsOrderly, grow-IsOrderly, restage-IsOrderly,
  open_phase, busy_counted, find_topic-below, leave-IsOrderly, move-IsOrderly, accept-IsOrderly,
}

-- A publisher's channel is open: the wait group is not empty, so Close has not come to it.
pub open_channel :
    (i : ℕ) (t : TopicState) (b : Bus)
    → get_elem? b.topics i ≡ some t
    → 1 ≤ b.in_flight
    → IsOrderly b
    → t.ch_closed ≡ false
open_channel i t b there some_one h =
    let here : Fits b.phase t = Every-get (Fits b.phase) b.topics i t h.fits there in
    elim (Bool-cases (is_past_wait b.phase)) [
      | inl past ↦ absurd (omega (arith, some_one, h.gone past))
      | inr before ↦ before_wait b.phase t before here
    ]
  where
    before_wait :
        (ph : Phase) (y : TopicState) → is_past_wait ph ≡ false → Fits ph y → y.ch_closed ≡ false
    before_wait opened y e f = f.0
    before_wait marked y e f = f.0
    before_wait signalled y e f = f.0
    before_wait closing y e f = absurd (cc e)
    before_wait waiting y e f = absurd (cc e)
    before_wait finished y e f = absurd (cc e)

pub send_at-IsOrderly :
    (p i : ℕ) (x : Publishing) (b : Bus)
    → get_elem? b.publishes p ≡ some x
    → busy x.stage ≡ 1
    → ((j : ℕ) → taken_by j x.stage ≡ 0)
    → i < length b.topics
    → IsOrderly b
    → IsOrderly (send_at p i x.envelope (blocked i) b)
unfolding send_at try_send
send_at-IsOrderly p i x b at was before below h = elim (Option-cases (get_elem? b.topics i)) [
  | inl n ↦ rw (send_at, n) h
  | inr (t, there) ↦
      let some_one : 1 ≤ b.in_flight = omega (arith, was, busy_counted p x b at h) in
      let is_open : t.ch_closed ≡ false = open_channel i t b there some_one h in
      elim (Bool-cases (ltb (length t.sent) (t.received + b.buffer_size))) [
        | inl room ↦
            rw (send_at, there)
              (rw (is_open, room) (accept-IsOrderly p i x t b at there was before is_open below h))
        | inr full ↦
            rw (send_at, there)
              (rw (is_open, full)
                (move-IsOrderly p x (blocked i) b at was before (λ j. refl) below h))
      ]
]

pub holds_topic :
    (s : Stage) (p : ℕ) (x : Publishing) (b : Bus)
    → x.stage ≡ s
    → get_elem? b.publishes p ≡ some x
    → IsOrderly b
    → PointsBelow (length b.topics) s
holds_topic s p x b st at h =
    rw (← st) (Every-get (λ y. PointsBelow (length b.topics) y.stage) b.publishes p x h.in_range at)

pub publish_from-IsOrderly :
    (s : Stage) (c : Choice) (p : ℕ) (x : Publishing) (b : Bus)
    → x.stage ≡ s
    → get_elem? b.publishes p ≡ some x
    → IsOrderly b
    → IsOrderly (publish_from s c p x b)
unfolding publish_from publish_register get_or_create_topic set_stage
publish_from-IsOrderly checked c p x b st at h =
    if_both IsOrderly b.closed _ _
      (λ e.
        move-IsOrderly p x (refused (sentinel err_closed)) b at (ap busy st)
          (λ i. ap (taken_by i) st) (λ i. refl) tt h)
      (λ e.
        restage-IsOrderly p x registered (b.in_flight + 1) b at (omega (arith, ap busy st))
          (λ i. ap (taken_by i) st) (λ i. refl) tt
          (λ g. absurd (cc (g, ap is_past_wait (open_phase b e h)))) h)
publish_from-IsOrderly registered c p x b st at h =
    elim (Option-cases (find_topic x.topic b.topics)) [
      | inr (i, f) ↦
          rw (get_or_create_topic, f)
            (move-IsOrderly p x (sending i) b at (ap busy st) (λ j. ap (taken_by j) st) (λ j. refl)
              (find_topic-below x.topic b.topics i f) h)
      | inl f ↦
          rw (get_or_create_topic, f)
            (if_both IsOrderly b.closed _ _
              (λ e.
                leave-IsOrderly p x (sentinel err_closed) b at (ap busy st)
                  (λ j. ap (taken_by j) st) h)
              (λ e.
                move-IsOrderly p x (sending (length b.topics))
                  (record b { topics = b.topics ++ new_topic x.topic ∷ [] }) at (ap busy st)
                  (λ j. ap (taken_by j) st) (λ j. refl)
                  (omega (arith, length-append b.topics (new_topic x.topic ∷ [])))
                  (grow-IsOrderly x.topic b e h)))
    ]
publish_from-IsOrderly (sending i) c p x b st at h =
    let below : PointsBelow (length b.topics) (sending i) = holds_topic (sending i) p x b st at h in
    send_at-IsOrderly p i x b at (ap busy st) (λ j. ap (taken_by j) st) below h
publish_from-IsOrderly (blocked i) take_send p x b st at h =
    let below : PointsBelow (length b.topics) (blocked i) = holds_topic (blocked i) p x b st at h in
    send_at-IsOrderly p i x b at (ap busy st) (λ j. ap (taken_by j) st) below h
publish_from-IsOrderly (blocked i) (take_cancel e) p x b st at h =
    leave-IsOrderly p x _ b at (ap busy st) (λ j. ap (taken_by j) st) h
publish_from-IsOrderly (blocked i) take_done p x b st at h =
    if_both IsOrderly b.done _ _
      (λ e. leave-IsOrderly p x (sentinel err_closed) b at (ap busy st) (λ j. ap (taken_by j) st) h)
      (λ e. h)
publish_from-IsOrderly (accepted i) c p x b st at h = h
publish_from-IsOrderly (refused e) c p x b st at h = h

pub publish_step-IsOrderly :
    (p : ℕ) (c : Choice) (b : Bus) → IsOrderly b → IsOrderly (publish_step p c b)
unfolding publish_step
publish_step-IsOrderly p c b h = elim (Option-cases (get_elem? b.publishes p)) [
  | inl n ↦ rw (publish_step, n) h
  | inr (x, at) ↦ rw (publish_step, at) (publish_from-IsOrderly x.stage c p x b refl at h)
]
