-- ===== src/EventBus/Moves.antt =====
-- A step of a goroutine that is there changes nothing, or it leaves less to do.
use mathlib.Core.WellFounded.{Acc}
use mathlib.Core.Path.{subst}
use watchkeepers.Prelude.{
  if_both, ◌⊎◌, ℕ, suc, ◌+◌, ◌-◌, ◌<◌, ◌≡◌, ◌≢◌, refl, sym, ◌∙◌, ap, true, false, none, some, [],
  ◌∷◌, Option-cases, inl, inr, arith, length, get_elem?, update_at, Every-get, total,
  total-update_at, ltb, ◌==◌, string_eq, number_eq, Lex, Lex-Acc, Never, Never-Acc, update_at-same,
  Option,
}
use watchkeepers.Go.Errors.{sentinel, wrap}
use watchkeepers.EventBus.{
  TopicState, Worker, idle, in_round, ended, Stage, checked, registered, sending, blocked, accepted,
  refused, Publishing, Phase, opened, marked, signalled, closing, waiting, finished, Bus,
  find_topic, set_stage, leave, get_or_create_topic, publish_register, try_send, send_at, Choice,
  take_send, take_cancel, take_done, publish_from, publish_step, work, run_topic, no_one_listed,
  all_ended, close_from, close_step, close_at, close_channel, BusOp, start_op, publish_op,
  subscribe_op, unsubscribe_op, work_op, close_op, close_channel_op, bus_op, err_closed,
}
use watchkeepers.EventBus.Orderly.{busy, has_begun, IsOrderly, busy_counted}
use watchkeepers.EventBus.Topics.{IsQueue, take-get}
use watchkeepers.EventBus.Senders.{open_channel}
use watchkeepers.EventBus.Progress.{is_own}
use watchkeepers.EventBus.Returns.{listed, work_left, rounds_left, round_left}

abbrev pub rank : Phase → ℕ
rank opened = 5
rank marked = 4
rank signalled = 3
rank closing = 2
rank waiting = 1
rank finished = 0

abbrev stage_left : Stage → ℕ
stage_left checked = 4
stage_left registered = 3
stage_left (sending i) = 2
stage_left (blocked i) = 1
stage_left (accepted i) = 0
stage_left (refused e) = 0

abbrev phases_left : Bus → ℕ
phases_left b = rank b.phase

abbrev calls_left : Bus → ℕ
calls_left b = total (λ (x : Publishing). stage_left x.stage) b.publishes

abbrev channels_left : Bus → ℕ
channels_left b = total listed b.topics

abbrev rounds_of : Bus → ℕ
rounds_of b = total work_left b.topics

-- Less to do: of the phases of Close, then of the calls of Publish, of the channels to close, and of the
-- workers.
abbrev pub Less : Bus → Bus → Type 0
Less = Lex phases_left (Lex calls_left (Lex channels_left (Lex rounds_of Never)))

pub Less-Acc : (b : Bus) → Acc Less b
Less-Acc =
    Lex-Acc phases_left _
      (Lex-Acc calls_left _ (Lex-Acc channels_left _ (Lex-Acc rounds_of Never Never-Acc)))

pub Less-changes : (c b : Bus) → Less c b → c ≢ b
Less-changes c b (inl l) e = omega (arith, l, ap phases_left e)
Less-changes c b (inr (_, inl l)) e = omega (arith, l, ap calls_left e)
Less-changes c b (inr (_, inr (_, inl l))) e = omega (arith, l, ap channels_left e)
Less-changes c b (inr (_, inr (_, inr (_, inl l)))) e = omega (arith, l, ap rounds_of e)
Less-changes c b (inr (_, inr (_, inr (_, inr (_, never))))) e = absurd never

abbrev pub Moves : Bus → Bus → Type 0
Moves b c = (c ≡ b) ⊎ Less c b

-- A call of Publish that goes to a stage with less to do.
restaged :
    (p : ℕ) (x : Publishing) (s : Stage) (b c : Bus)
    → get_elem? b.publishes p ≡ some x
    → c.publishes ≡ update_at p (λ y. record y { stage = s }) b.publishes
    → c.phase ≡ b.phase
    → stage_left s < stage_left x.stage
    → Moves b c
restaged p x s b c at pubs same less =
    let moved =
      total-update_at (λ (y : Publishing). stage_left y.stage) p (λ y. record y { stage = s })
        b.publishes x at in
    let fewer : calls_left c < calls_left b = rw pubs (omega (arith, moved, less)) in
    inr (inr (omega (arith, ap rank same), inl fewer))

send_at-Moves :
    (p i : ℕ) (x : Publishing) (full : Stage) (b : Bus)
    → get_elem? b.publishes p ≡ some x
    → busy x.stage ≡ 1
    → IsOrderly b
    → Moves b (set_stage p full b)
    → 0 < stage_left x.stage
    → Moves b (send_at p i x.envelope full b)
unfolding send_at try_send leave set_stage
send_at-Moves p i x full b at was h otherwise some_left =
    elim (Option-cases (get_elem? b.topics i)) [
      | inl n ↦ rw (n, send_at) (inl refl)
      | inr (t, there) ↦
          let is_open = open_channel i t b there (omega (arith, was, busy_counted p x b at h)) h in
          rw (there, send_at)
            (rw is_open (
              if_both (Moves b) (ltb (length t.sent) (t.received + b.buffer_size)) _
                (set_stage p full b) (λ _. restaged p x (accepted i) b _ at refl refl some_left)
                (λ _. otherwise)))
    ]

publish_from-Moves :
    (s : Stage) (c : Choice) (p : ℕ) (x : Publishing) (b : Bus)
    → x.stage ≡ s
    → get_elem? b.publishes p ≡ some x
    → IsOrderly b
    → Moves b (publish_from s c p x b)
unfolding publish_from publish_register get_or_create_topic leave set_stage
publish_from-Moves checked c p x b st at h =
    if_both (Moves b) b.closed _ _
      (λ _.
        restaged p x (refused (sentinel err_closed)) b _ at refl refl
          (omega (arith, ap stage_left st)))
      (λ _. restaged p x registered b _ at refl refl (omega (arith, ap stage_left st)))
publish_from-Moves registered c p x b st at h = elim (Option-cases (find_topic x.topic b.topics)) [
  | inr (i, f) ↦
      rw (f, get_or_create_topic)
        (restaged p x (sending i) b _ at refl refl (omega (arith, ap stage_left st)))
  | inl f ↦
      rw (f, get_or_create_topic)
        (if_both (Moves b) b.closed _ _
          (λ _.
            restaged p x (refused (sentinel err_closed)) b _ at refl refl
              (omega (arith, ap stage_left st)))
          (λ _.
            restaged p x (sending (length b.topics)) b _ at refl refl
              (omega (arith, ap stage_left st))))
]
publish_from-Moves (sending i) c p x b st at h =
    send_at-Moves p i x (blocked i) b at (ap busy st) h
      (restaged p x (blocked i) b _ at refl refl (omega (arith, ap stage_left st)))
      (omega (arith, ap stage_left st))
publish_from-Moves (blocked i) take_send p x b st at h =
    let it : (y : Publishing) → get_elem? b.publishes p ≡ some y → y ≡ x =
      λ y e. (let q : some y ≡ some x = sym e ∙ at in cc) in
    let same =
      update_at-same p (λ y. record y { stage = blocked i }) b.publishes
        (λ y e. ap (λ s. record y { stage = s }) (sym (ap (λ z. z.stage) (it y e) ∙ st))) in
    send_at-Moves p i x (blocked i) b at (ap busy st) h
      (inl (ap (λ ps. record b { publishes = ps }) same)) (omega (arith, ap stage_left st))
publish_from-Moves (blocked i) (take_cancel e) p x b st at h =
    restaged p x (refused (wrap "eventbus: publish: %w" e)) b _ at refl refl
      (omega (arith, ap stage_left st))
publish_from-Moves (blocked i) take_done p x b st at h =
    if_both (Moves b) b.done _ b
      (λ _.
        restaged p x (refused (sentinel err_closed)) b _ at refl refl
          (omega (arith, ap stage_left st)))
      (λ _. inl refl)
publish_from-Moves (accepted i) c p x b st at h = inl refl
publish_from-Moves (refused e) c p x b st at h = inl refl

close_from-Moves :
    (ph : Phase) (b : Bus) → b.phase ≡ ph → has_begun ph ≡ true → Moves b (close_from ph b)
unfolding close_from
close_from-Moves opened b e begun = absurd cc
close_from-Moves marked b e begun = inr (inl (omega (arith, ap rank e)))
close_from-Moves signalled b e begun =
    if_both (Moves b) (b.in_flight == 0) _ b (λ _. inr (inl (omega (arith, ap rank e))))
      (λ _. inl refl)
close_from-Moves closing b e begun =
    if_both (Moves b) (no_one_listed b.topics) _ b (λ _. inr (inl (omega (arith, ap rank e))))
      (λ _. inl refl)
close_from-Moves waiting b e begun =
    if_both (Moves b) (all_ended b.topics) _ b (λ _. inr (inl (omega (arith, ap rank e))))
      (λ _. inl refl)
close_from-Moves finished b e begun = inl refl

close_at-Moves :
    (ph : Phase) (i : ℕ) (t : Option TopicState) (b : Bus)
    → get_elem? b.topics i ≡ t
    → Moves b (close_at ph i t b)
unfolding close_at
close_at-Moves closing i (some t) b at =
    let shut : TopicState → TopicState = λ x. record x { to_close = false; ch_closed = true } in
    if_both (Moves b) t.to_close _ b
      (λ on.
        let on_list : listed t ≡ 1 = rw on refl in
        let moved = total-update_at listed i shut b.topics t at in
        inr (inr (omega arith, inr (omega arith, inl (omega (arith, moved, on_list))))))
      (λ _. inl refl)
close_at-Moves closing i none b at = inl refl
close_at-Moves opened i t b at = inl refl
close_at-Moves marked i t b at = inl refl
close_at-Moves signalled i t b at = inl refl
close_at-Moves waiting i t b at = inl refl
close_at-Moves finished i t b at = inl refl

-- A worker waits, or it has less to do; the list of Close stays.
work-less :
    (k : Worker) (t : TopicState)
    → t.worker ≡ k
    → IsQueue t
    → (work k t ≡ t) ⊎ (work_left (work k t) < work_left t) × (listed (work k t) ≡ listed t)
unfolding work
work-less ended t at q = inl refl
work-less (in_round env []) t at q = inr (omega (arith, ap round_left at), refl)
work-less (in_round env (x ∷ hs)) t at q = inr (omega (arith, ap round_left at), refl)
work-less idle t at q = elim (Option-cases (get_elem? t.sent t.received)) [
  | inr (env, g) ↦
      let room = (take-get t.received t.sent env g).1 in
      let one_less : length t.sent - t.received ≡ suc (length t.sent - (t.received + 1)) =
        omega (arith, room) in
      let unrolled : rounds_left (length t.subs) (length t.sent - t.received)
          ≡ length t.subs + 2 + rounds_left (length t.subs) (length t.sent - (t.received + 1)) =
        ap (rounds_left (length t.subs)) one_less in
      rw (work, g) (inr (omega (arith, ap round_left at, unrolled), refl))
  | inl g ↦
      rw (work, g)
        (if_both (λ z. (z ≡ t) ⊎ (work_left z < work_left t) × (listed z ≡ listed t)) t.ch_closed _
          t (λ e. inr (omega (arith, ap round_left at), refl)) (λ e. inl refl))
]

run_topic-Moves : (i : ℕ) (b : Bus) → IsOrderly b → Moves b (run_topic i b)
unfolding run_topic
run_topic-Moves i b h = elim (Option-cases (get_elem? b.topics i)) [
  | inl n ↦ inl (
      ap (λ ts. record b { topics = ts })
        (update_at-same i (λ t. work t.worker t) b.topics (λ t e. absurd (cc (e, n)))))
  | inr (t, at) ↦ elim (work-less t.worker t refl (Every-get IsQueue b.topics i t h.queues at)) [
    | inl same ↦ inl (
        ap (λ ts. record b { topics = ts })
          (update_at-same i (λ t. work t.worker t) b.topics
            (λ y e.
              let q : some y ≡ some t = sym e ∙ at in
              let it : t ≡ y = cc in subst (λ z. work z.worker z ≡ z) it same)))
    | inr (less, kept) ↦
        let rounds = total-update_at work_left i (λ t. work t.worker t) b.topics t at in
        let lists = total-update_at listed i (λ t. work t.worker t) b.topics t at in
        inr (
          inr (
            omega arith,
            inr (omega arith, inr (omega (arith, lists, kept), inl (omega (arith, rounds, less)))),
          ))
  ]
]

-- After Close has begun, a step of a goroutine that is there changes nothing or leaves less to do.
pub own-Moves :
    (o : BusOp) (b : Bus)
    → is_own o ≡ true
    → IsOrderly b
    → has_begun b.phase ≡ true
    → Moves b (bus_op o b)
unfolding bus_op publish_step close_step close_channel
own-Moves (start_op topic env) b own h begun = absurd cc
own-Moves (subscribe_op topic) b own h begun = absurd cc
own-Moves (unsubscribe_op i id) b own h begun = absurd cc
own-Moves (publish_op p c) b own h begun = elim (Option-cases (get_elem? b.publishes p)) [
  | inl n ↦ rw (n, publish_step) (inl refl)
  | inr (x, at) ↦ rw (at, publish_step) (publish_from-Moves x.stage c p x b refl at h)
]
own-Moves (work_op i) b own h begun = run_topic-Moves i b h
own-Moves close_op b own h begun = close_from-Moves b.phase b refl begun
own-Moves (close_channel_op i) b own h begun =
    close_at-Moves b.phase i (get_elem? b.topics i) b refl
