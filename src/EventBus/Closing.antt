-- ===== src/EventBus/Closing.antt =====
-- Every step of a topic's worker, of a subscriber and of Close keeps the bus orderly.
use watchkeepers.Prelude.{
  if_both, nat_eq_iff, ℕ, zero, suc, ◌≡◌, refl, sym, ◌∙◌, ap, String, true, false, not, none, some,
  List, [], ◌∷◌, ◌++◌, Option-cases, Bool-cases, inl, inr, length, get_elem?, update_at,
  if◌then◌else◌, Every, Every-get, Every-update_at, length-update_at, get-update_at, ◌==◌,
  string_eq, number_eq, ℤ,
}
use watchkeepers.Go.Errors.{Result}
use watchkeepers.EventBus.{
  Worker, idle, in_round, ended, TopicState, Phase, opened, marked, signalled, closing, waiting,
  finished, Bus, new_bus, find_topic, add_sub, subscribe_topic, without_sub, unsubscribe, work,
  run_topic, worker_ended, no_one_listed, all_ended, list_all, close_from, close_step, close_at,
  close_channel, BusOp, start_op, publish_op, subscribe_op, unsubscribe_op, work_op, close_op,
  close_channel_op, bus_op, bus_ops,
}
use watchkeepers.EventBus.Topics.{IsQueue, work-IsQueue}
use watchkeepers.EventBus.Orderly.{
  has_begun, is_signalled, is_past_wait, Fits, IsOrderly, new_bus-IsOrderly, grow-IsOrderly,
  publish_start-IsOrderly,
}
use watchkeepers.EventBus.Senders.{publish_step-IsOrderly}

-- A change of one topic that sends nothing.
topic-IsOrderly :
    (i : ℕ) (f : TopicState → TopicState) (b : Bus)
    → ((y : TopicState) → IsQueue y → IsQueue (f y))
    → ((y : TopicState) → Fits b.phase y → Fits b.phase (f y))
    → ((y : TopicState) → (f y).sent ≡ y.sent)
    → IsOrderly b
    → IsOrderly (record b { topics = update_at i f b.topics })
topic-IsOrderly i f b queue fit sent h = record {
  queues = Every-update_at IsQueue i f b.topics (λ y e q. queue y q) h.queues;
  fits = Every-update_at (Fits b.phase) i f b.topics (λ y e q. fit y q) h.fits;
  flag = h.flag;
  done_flag = h.done_flag;
  counted = h.counted;
  gone = h.gone;
  accounted = λ j y g.
      let (z, was_there, how) = get-update_at i f b.topics j y g in
      elim how [
        | inl (same, c) ↦
            ap (λ w. length w.sent) c ∙ (ap length (sent z) ∙ h.accounted j z was_there)
        | inr (other, c) ↦ ap (λ w. length w.sent) c ∙ h.accounted j z was_there
      ];
  in_range = rw (length-update_at i f b.topics) h.in_range;
  calm = h.calm;
}

-- The handlers of a topic are no part of what is promised of its channel.
subs-IsQueue : (y : TopicState) (l : List ℕ) → IsQueue y → IsQueue (record y { subs = l })
subs-IsQueue y l h = record {
  taken = h.taken;
  fifo = h.fifo;
  called = h.called;
  emptied = h.emptied;
}

Fits-subs : (ph : Phase) (y : TopicState) (l : List ℕ) → Fits ph y → Fits ph (record y { subs = l })
Fits-subs opened y l h = h
Fits-subs marked y l h = h
Fits-subs signalled y l h = h
Fits-subs closing y l h = h
Fits-subs waiting y l h = h
Fits-subs finished y l h = h

add_sub-IsOrderly : (i id : ℕ) (b : Bus) → IsOrderly b → IsOrderly (add_sub i id b)
unfolding add_sub
add_sub-IsOrderly i id b h =
    let o =
      topic-IsOrderly i (λ t. record t { subs = t.subs ++ id ∷ [] }) b (λ y q. subs-IsQueue y _ q)
        (λ y q. Fits-subs b.phase y _ q) (λ y. refl) h in
    record {
      queues = o.queues;
      fits = o.fits;
      flag = o.flag;
      done_flag = o.done_flag;
      counted = o.counted;
      gone = o.gone;
      accounted = o.accounted;
      in_range = o.in_range;
      calm = o.calm;
    }

subscribe_topic-IsOrderly :
    (topic : String) (b : Bus) → IsOrderly b → IsOrderly (subscribe_topic topic b).1
unfolding subscribe_topic
subscribe_topic-IsOrderly topic b h =
    if_both (λ (z : Result ℕ × Bus). IsOrderly z.1) (topic == "") _ _ (λ e. h)
      (λ e.
        if_both (λ (z : Result ℕ × Bus). IsOrderly z.1) b.closed _ _ (λ c. h)
          (λ c. elim (Option-cases (find_topic topic b.topics)) [
            | inr (i, f) ↦ rw f (add_sub-IsOrderly i _ b h)
            | inl f ↦ rw f (add_sub-IsOrderly (length b.topics) _ _ (grow-IsOrderly topic b c h))
          ]))

unsubscribe-IsOrderly : (i id : ℕ) (b : Bus) → IsOrderly b → IsOrderly (unsubscribe i id b)
unfolding unsubscribe
unsubscribe-IsOrderly i id b h =
    topic-IsOrderly i (λ t. record t { subs = without_sub id t.subs }) b (λ y q. subs-IsQueue y _ q)
      (λ y q. Fits-subs b.phase y _ q) (λ y. refl) h

work-sent : (w : Worker) (y : TopicState) → (work w y).sent ≡ y.sent
unfolding work
work-sent idle y = elim (Option-cases (get_elem? y.sent y.received)) [
  | inr (env, g) ↦ rw (work, g) refl
  | inl g ↦
      rw (work, g)
        (if_both (λ (z : TopicState). z.sent ≡ y.sent) y.ch_closed _ _ (λ e. refl) (λ e. refl))
]
work-sent (in_round env []) y = refl
work-sent (in_round env (x ∷ hs)) y = refl
work-sent ended y = refl

pub work-channel :
    (w : Worker) (y : TopicState)
    → ((work w y).ch_closed ≡ y.ch_closed) × ((work w y).to_close ≡ y.to_close)
unfolding work
work-channel idle y = elim (Option-cases (get_elem? y.sent y.received)) [
  | inr (env, g) ↦ rw (work, g) (refl, refl)
  | inl g ↦
      rw (work, g)
        (
          if_both (λ (z : TopicState). z.ch_closed ≡ y.ch_closed) y.ch_closed _ _ (λ e. refl)
              (λ e. refl),
          if_both (λ (z : TopicState). z.to_close ≡ y.to_close) y.ch_closed _ _ (λ e. refl)
              (λ e. refl),
        )
]
work-channel (in_round env []) y = (refl, refl)
work-channel (in_round env (x ∷ hs)) y = (refl, refl)
work-channel ended y = (refl, refl)

work-ended :
    (w : Worker) (y : TopicState)
    → worker_ended w ≡ true
    → y.worker ≡ w
    → worker_ended (work w y).worker ≡ true
unfolding work worker_ended
work-ended idle y h at = absurd (cc h)
work-ended (in_round env hs) y h at = absurd (cc h)
work-ended ended y h at = ap worker_ended at

-- A phase asks of a topic only its channel's two flags and whether its worker has returned.
Fits-kept :
    (ph : Phase) (y z : TopicState)
    → z.ch_closed ≡ y.ch_closed
    → z.to_close ≡ y.to_close
    → (worker_ended y.worker ≡ true → worker_ended z.worker ≡ true)
    → Fits ph y
    → Fits ph z
Fits-kept opened y z c l e h = (c ∙ h.0, l ∙ h.1)
Fits-kept marked y z c l e h = (c ∙ h.0, l ∙ h.1)
Fits-kept signalled y z c l e h = (c ∙ h.0, l ∙ h.1)
Fits-kept closing y z c l e h = c ∙ (h ∙ sym (ap not l))
Fits-kept waiting y z c l e h = (c ∙ h.0, l ∙ h.1)
Fits-kept finished y z c l e h = (c ∙ h.0, l ∙ h.1, e h.2)

-- A worker leaves its channel as it is, and one that has returned stays so.
work-Fits :
    (w : Worker) (y : TopicState) (ph : Phase) → y.worker ≡ w → Fits ph y → Fits ph (work w y)
unfolding work worker_ended
work-Fits w y ph at h =
    let (closed_same, listed_same) = work-channel w y in
    Fits-kept ph y (work w y) closed_same listed_same
      (λ e. work-ended w y (ap worker_ended (sym at) ∙ e) at) h

run_topic-IsOrderly : (i : ℕ) (b : Bus) → IsOrderly b → IsOrderly (run_topic i b)
unfolding run_topic
run_topic-IsOrderly i b h =
    topic-IsOrderly i (λ t. work t.worker t) b (λ y q. work-IsQueue y.worker y refl q)
      (λ y q. work-Fits y.worker y b.phase refl q) (λ y. work-sent y.worker y) h

-- Listing every channel changes neither what was sent nor how many there are.
list_all-get :
    (ts : List TopicState) (i : ℕ) (t : TopicState)
    → get_elem? (list_all ts) i ≡ some t
    → (y : TopicState) × (get_elem? ts i ≡ some y) × (t.sent ≡ y.sent)
unfolding list_all
list_all-get [] i t h = absurd (cc h)
list_all-get (y ∷ ts) zero t h =
    (y, refl, sym (ap (λ o. elim o [ none ↦ y.sent | some z ↦ z.sent ]) h))
list_all-get (y ∷ ts) (suc i) t h = list_all-get ts i t h

length-list_all : (ts : List TopicState) → length (list_all ts) ≡ length ts
unfolding list_all
length-list_all [] = refl
length-list_all (y ∷ ts) = ap suc (length-list_all ts)

list_all-IsQueue : (ts : List TopicState) → Every IsQueue ts → Every IsQueue (list_all ts)
unfolding list_all
list_all-IsQueue [] h = tt
list_all-IsQueue (y ∷ ts) (rest, q) = (
  list_all-IsQueue ts rest,
  record { taken = q.taken; fifo = q.fifo; called = q.called; emptied = q.emptied },
)

list_all-Fits : (ts : List TopicState) → Every (Fits opened) ts → Every (Fits marked) (list_all ts)
unfolding list_all
list_all-Fits [] h = tt
list_all-Fits (y ∷ ts) (rest, q) = (list_all-Fits ts rest, (q.0, refl))

-- After the wait group is empty every listed channel is open, as the loop over the list begins.
signalled-closing : (ts : List TopicState) → Every (Fits signalled) ts → Every (Fits closing) ts
signalled-closing [] h = tt
signalled-closing (y ∷ ts) (rest, q) = (signalled-closing ts rest, q.0 ∙ sym (ap not q.1))

closing-waiting :
    (ts : List TopicState)
    → no_one_listed ts ≡ true
    → Every (Fits closing) ts
    → Every (Fits waiting) ts
unfolding no_one_listed
closing-waiting [] e h = tt
closing-waiting (y ∷ ts) e (rest, q) = elim (Bool-cases y.to_close) [
  | inl l ↦ absurd (cc (rw (no_one_listed, l) at e))
  | inr l ↦ (closing-waiting ts (rw (no_one_listed, l) at e) rest, (q ∙ ap not l, l))
]

waiting-finished :
    (ts : List TopicState)
    → all_ended ts ≡ true
    → Every (Fits waiting) ts
    → Every (Fits finished) ts
unfolding all_ended
waiting-finished [] e h = tt
waiting-finished (y ∷ ts) e (rest, q) = elim (Bool-cases (worker_ended y.worker)) [
  | inr l ↦ absurd (cc (rw (all_ended, l) at e))
  | inl l ↦ (waiting-finished ts (rw (all_ended, l) at e) rest, (q.0, q.1, l))
]

-- The next phase, with what is asked of the channels there.
phase-IsOrderly :
    (ph : Phase) (b : Bus)
    → Every (Fits ph) b.topics
    → has_begun ph ≡ has_begun b.phase
    → is_signalled ph ≡ is_signalled b.phase
    → (is_past_wait ph ≡ true → b.in_flight ≡ 0)
    → IsOrderly b
    → IsOrderly (record b { phase = ph })
phase-IsOrderly ph b fits begun signal gone h = record {
  queues = h.queues;
  fits = fits;
  flag = h.flag ∙ sym begun;
  done_flag = h.done_flag ∙ sym signal;
  counted = h.counted;
  gone = gone;
  accounted = h.accounted;
  in_range = h.in_range;
  calm = h.calm;
}

close_from-IsOrderly :
    (ph : Phase) (b : Bus) → b.phase ≡ ph → IsOrderly b → IsOrderly (close_from ph b)
unfolding close_from
close_from-IsOrderly opened b at h = record {
  queues = list_all-IsQueue b.topics h.queues;
  fits = list_all-Fits b.topics (rw at at h.fits);
  flag = refl;
  done_flag = h.done_flag ∙ ap is_signalled at;
  counted = h.counted;
  gone = λ g. absurd (cc g);
  accounted = λ i t g.
      let (y, was, same) = list_all-get b.topics i t g in ap length same ∙ h.accounted i y was;
  in_range = rw (length-list_all b.topics) h.in_range;
  calm = h.calm;
}
close_from-IsOrderly marked b at h = record {
  queues = h.queues;
  fits = rw at at h.fits;
  flag = h.flag ∙ ap has_begun at;
  done_flag = refl;
  counted = h.counted;
  gone = λ g. absurd (cc g);
  accounted = h.accounted;
  in_range = h.in_range;
  calm = h.calm;
}
close_from-IsOrderly signalled b at h =
    if_both IsOrderly (b.in_flight == 0) _ _
      (λ e.
        phase-IsOrderly closing b (signalled-closing b.topics (rw at at h.fits))
          (ap has_begun (sym at)) (ap is_signalled (sym at)) (λ g. (nat_eq_iff b.in_flight 0).0 e)
          h)
      (λ e. h)
close_from-IsOrderly closing b at h =
    if_both IsOrderly (no_one_listed b.topics) _ _
      (λ e.
        phase-IsOrderly waiting b (closing-waiting b.topics e (rw at at h.fits))
          (ap has_begun (sym at)) (ap is_signalled (sym at)) (λ g. h.gone (ap is_past_wait at)) h)
      (λ e. h)
close_from-IsOrderly waiting b at h =
    if_both IsOrderly (all_ended b.topics) _ _
      (λ e.
        phase-IsOrderly finished b (waiting-finished b.topics e (rw at at h.fits))
          (ap has_begun (sym at)) (ap is_signalled (sym at)) (λ g. h.gone (ap is_past_wait at)) h)
      (λ e. h)
close_from-IsOrderly finished b at h = h

close_listed-IsOrderly :
    (i : ℕ) (t : TopicState) (b : Bus)
    → b.phase ≡ closing
    → get_elem? b.topics i ≡ some t
    → t.to_close ≡ true
    → IsOrderly b
    → IsOrderly (record b {
      topics = update_at i (λ x. record x { to_close = false; ch_closed = true }) b.topics;
      panicked = if t.ch_closed then true else b.panicked;
    })
close_listed-IsOrderly i t b at there listed h =
    let shut = λ (x : TopicState). record x { to_close = false; ch_closed = true } in
    let fit : Fits b.phase t = Every-get (Fits b.phase) b.topics i t h.fits there in
    let here : Fits closing t = rw at at fit in
    let was_open : t.ch_closed ≡ false = here ∙ ap not listed in
    let o =
      topic-IsOrderly i shut b
        (λ y q. record {
          taken = q.taken;
          fifo = q.fifo;
          called = q.called;
          emptied = λ e. (refl, (q.emptied e).1);
        })
        (λ y q. rw at refl) (λ y. refl) h in
    record {
      queues = o.queues;
      fits = o.fits;
      flag = o.flag;
      done_flag = o.done_flag;
      counted = o.counted;
      gone = o.gone;
      accounted = o.accounted;
      in_range = o.in_range;
      calm = rw was_open h.calm;
    }

-- Close comes to a listed channel while it is open.
close_at-IsOrderly :
    (ph : Phase) (i : ℕ) (b : Bus)
    → b.phase ≡ ph
    → IsOrderly b
    → IsOrderly (close_at ph i (get_elem? b.topics i) b)
unfolding close_at
close_at-IsOrderly closing i b at h = elim (Option-cases (get_elem? b.topics i)) [
  | inl n ↦ rw n h
  | inr (t, there) ↦
      rw there
        (if_both IsOrderly t.to_close _ _ (λ e. close_listed-IsOrderly i t b at there e h) (λ e. h))
]
close_at-IsOrderly opened i b at h = h
close_at-IsOrderly marked i b at h = h
close_at-IsOrderly signalled i b at h = h
close_at-IsOrderly waiting i b at h = h
close_at-IsOrderly finished i b at h = h

pub op-IsOrderly : (o : BusOp) (b : Bus) → IsOrderly b → IsOrderly (bus_op o b)
unfolding bus_op close_step close_channel
op-IsOrderly (start_op topic env) b h = publish_start-IsOrderly topic env b h
op-IsOrderly (publish_op p c) b h = publish_step-IsOrderly p c b h
op-IsOrderly (subscribe_op topic) b h = subscribe_topic-IsOrderly topic b h
op-IsOrderly (unsubscribe_op i id) b h = unsubscribe-IsOrderly i id b h
op-IsOrderly (work_op i) b h = run_topic-IsOrderly i b h
op-IsOrderly close_op b h = close_from-IsOrderly b.phase b refl h
op-IsOrderly (close_channel_op i) b h = close_at-IsOrderly b.phase i b refl h

pub ops-IsOrderly : (os : List BusOp) (b : Bus) → IsOrderly b → IsOrderly (bus_ops os b)
unfolding bus_ops
ops-IsOrderly [] b h = h
ops-IsOrderly (o ∷ os) b h = ops-IsOrderly os (bus_op o b) (op-IsOrderly o b h)

-- After any steps of any goroutines on a new bus nothing has panicked: no send on a closed channel and no
-- second close of one. The wait group's counter is the number of the calls of Publish that are in it, and
-- no channel is closed before it is empty. Each topic took as many envelopes as calls of Publish returned
-- nil with it; its worker has taken out the oldest of them in their order, and has called for each, in
-- order, all the handlers that it found then, but for those of the round that it is in.
pub bus-IsOrderly : (n : ℤ) (os : List BusOp) → IsOrderly (bus_ops os (new_bus n))
bus-IsOrderly n os = ops-IsOrderly os (new_bus n) (new_bus-IsOrderly n)
