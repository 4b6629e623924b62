-- ===== src/EventBus/Orderly.antt =====
-- The whole bus: the wait group counts the publishers, and channels close only when it is empty.
use watchkeepers.Prelude.{
  ℕ, suc, ◌+◌, ◌-◌, ◌≤◌, ◌<◌, ◌≢◌, ◌≡◌, refl, sym, ◌∙◌, ap, String, Bool, true, false, not, none,
  some, List, [], ◌∷◌, ◌++◌, Option-cases, Bool-cases, inl, inr, arith, length, get_elem?,
  update_at, length-append, if◌then◌else◌, Every, Every-append, Every-update_at, Every-map, total,
  total-append, total-update_at, total-get, length-update_at, get-update_at, get-snoc, ◌==◌,
  string_eq, number_eq, ℤ,
}
use watchkeepers.Go.Errors.{Error}
use watchkeepers.EventBus.{
  Envelope, TopicState, Stage, checked, registered, sending, blocked, accepted, refused, Publishing,
  Phase, opened, marked, signalled, closing, waiting, finished, Bus, new_bus, new_topic,
  start_stage, find_topic, set_stage, leave, publish_start, worker_ended,
}
use watchkeepers.EventBus.Topics.{IsQueue, new_topic-IsQueue, send-IsQueue}

-- Who is in the wait group.
abbrev pub busy : Stage → ℕ
busy checked = 0
busy registered = 1
busy (sending i) = 1
busy (blocked i) = 1
busy (accepted i) = 0
busy (refused e) = 0

abbrev pub busy_of : Publishing → ℕ
busy_of x = busy x.stage

-- Whose envelope a topic took.
abbrev pub taken_by : ℕ → Stage → ℕ
taken_by i checked = 0
taken_by i registered = 0
taken_by i (sending j) = 0
taken_by i (blocked j) = 0
taken_by i (accepted j) = if j == i then 1 else 0
taken_by i (refused e) = 0

abbrev pub taken_from : ℕ → Publishing → ℕ
taken_from i x = taken_by i x.stage

-- The topic that a call holds is there.
abbrev pub PointsBelow : ℕ → Stage → Type 0
PointsBelow n checked = Unit
PointsBelow n registered = Unit
PointsBelow n (sending i) = i < n
PointsBelow n (blocked i) = i < n
PointsBelow n (accepted i) = i < n
PointsBelow n (refused e) = Unit

abbrev pub has_begun : Phase → Bool
has_begun opened = false
has_begun marked = true
has_begun signalled = true
has_begun closing = true
has_begun waiting = true
has_begun finished = true

abbrev pub is_signalled : Phase → Bool
is_signalled opened = false
is_signalled marked = false
is_signalled signalled = true
is_signalled closing = true
is_signalled waiting = true
is_signalled finished = true

abbrev pub is_past_wait : Phase → Bool
is_past_wait opened = false
is_past_wait marked = false
is_past_wait signalled = false
is_past_wait closing = true
is_past_wait waiting = true
is_past_wait finished = true

-- Where a topic's channel stands in each phase of Close.
abbrev pub Fits : Phase → TopicState → Type 0
Fits opened t = (t.ch_closed ≡ false) × (t.to_close ≡ false)
Fits marked t = (t.ch_closed ≡ false) × (t.to_close ≡ true)
Fits signalled t = (t.ch_closed ≡ false) × (t.to_close ≡ true)
Fits closing t = t.ch_closed ≡ not t.to_close
Fits waiting t = (t.ch_closed ≡ true) × (t.to_close ≡ false)
Fits finished t = (t.ch_closed ≡ true) × (t.to_close ≡ false) × (worker_ended t.worker ≡ true)

pub record IsOrderly (b : Bus) : Type 0 where
  pub queues : Every IsQueue b.topics
  pub fits : Every (Fits b.phase) b.topics
  pub flag : b.closed ≡ has_begun b.phase
  pub done_flag : b.done ≡ is_signalled b.phase
  pub counted : b.in_flight ≡ total busy_of b.publishes
  pub gone : is_past_wait b.phase ≡ true → b.in_flight ≡ 0
  pub accounted :
      (i : ℕ) (t : TopicState)
      → get_elem? b.topics i ≡ some t
      → length t.sent ≡ total (taken_from i) b.publishes
  pub in_range : Every (λ x. PointsBelow (length b.topics) x.stage) b.publishes
  pub calm : b.panicked ≡ false

pub new_bus-IsOrderly : (n : ℤ) → IsOrderly (new_bus n)
unfolding new_bus
new_bus-IsOrderly n = record {
  queues = tt;
  fits = tt;
  flag = refl;
  done_flag = refl;
  counted = refl;
  gone = λ h. refl;
  accounted = λ i t g. absurd (cc g);
  in_range = tt;
  calm = refl;
}

-- A call of Publish that goes from one stage to another which takes no envelope.
pub restage-IsOrderly :
    (p : ℕ) (x : Publishing) (s : Stage) (n : ℕ) (b : Bus)
    → get_elem? b.publishes p ≡ some x
    → n + busy x.stage ≡ b.in_flight + busy s
    → ((i : ℕ) → taken_by i x.stage ≡ 0)
    → ((i : ℕ) → taken_by i s ≡ 0)
    → PointsBelow (length b.topics) s
    → (is_past_wait b.phase ≡ true → n ≡ 0)
    → IsOrderly b
    → IsOrderly (record (set_stage p s b) { in_flight = n })
unfolding set_stage
restage-IsOrderly p x s n b at count before after points gone h = record {
  queues = h.queues;
  fits = h.fits;
  flag = h.flag;
  done_flag = h.done_flag;
  counted = omega (
    arith,
    count,
    h.counted,
    total-update_at busy_of p (λ y. record y { stage = s }) b.publishes x at,
  );
  gone = gone;
  accounted = λ i t g.
      h.accounted i t g
      ∙ omega (
        arith,
        before i,
        after i,
        total-update_at (taken_from i) p (λ y. record y { stage = s }) b.publishes x at,
      );
  in_range = Every-update_at _ p _ b.publishes (λ y e q. points) h.in_range;
  calm = h.calm;
}

not_begun : (ph : Phase) → has_begun ph ≡ false → (ph ≡ opened)
not_begun opened h = refl
not_begun marked h = absurd (cc h)
not_begun signalled h = absurd (cc h)
not_begun closing h = absurd (cc h)
not_begun waiting h = absurd (cc h)
not_begun finished h = absurd (cc h)

-- A bus that is not closed is open.
pub open_phase : (b : Bus) → b.closed ≡ false → IsOrderly b → b.phase ≡ opened
open_phase b c h = not_begun b.phase (sym h.flag ∙ c)

-- A call that is in the wait group is counted.
pub busy_counted :
    (p : ℕ) (x : Publishing) (b : Bus)
    → get_elem? b.publishes p ≡ some x
    → IsOrderly b
    → busy x.stage ≤ b.in_flight
busy_counted p x b at h = omega (arith, h.counted, total-get busy_of b.publishes p x at)

start_stage-calm :
    (n : ℕ) (topic : String) (closed : Bool)
    → (busy (start_stage topic closed) ≡ 0)
      × ((i : ℕ) → taken_by i (start_stage topic closed) ≡ 0)
      × PointsBelow n (start_stage topic closed)
unfolding start_stage
start_stage-calm n topic closed = elim (Bool-cases (topic == "")) [
  | inl e ↦ rw (start_stage, e) (refl, λ i. refl, tt)
  | inr e ↦ elim (Bool-cases closed) [
    | inl c ↦ rw (start_stage, e, c) (refl, λ i. refl, tt)
    | inr c ↦ rw (start_stage, e, c) (refl, λ i. refl, tt)
  ]
]

pub publish_start-IsOrderly :
    (topic : String) (env : Envelope) (b : Bus)
    → IsOrderly b
    → IsOrderly (publish_start topic env b)
unfolding publish_start
publish_start-IsOrderly topic env b h =
    let (calm_stage, untaken, points) = start_stage-calm (length b.topics) topic b.closed in
    let x : Publishing = record {
      topic = topic;
      envelope = env;
      stage = start_stage topic b.closed;
    } in
    record {
      queues = h.queues;
      fits = h.fits;
      flag = h.flag;
      done_flag = h.done_flag;
      counted = omega (arith, h.counted, calm_stage, total-append busy_of b.publishes (x ∷ []));
      gone = h.gone;
      accounted = λ i t g.
          h.accounted i t g
          ∙ omega (arith, untaken i, total-append (taken_from i) b.publishes (x ∷ []));
      in_range = Every-append _ b.publishes _ h.in_range (tt, points);
      calm = h.calm;
    }

pub find_topic-below :
    (topic : String) (ts : List TopicState) (i : ℕ) → find_topic topic ts ≡ some i → i < length ts
unfolding find_topic
find_topic-below topic [] i h = absurd (cc h)
find_topic-below topic (t ∷ ts) i h = elim (Bool-cases (t.name == topic)) [
  | inl e ↦ let first : 0 ≡ i = cc (rw (find_topic, e) at h) in omega (arith, first)
  | inr e ↦ elim (Option-cases (find_topic topic ts)) [
    | inl n ↦ absurd (cc (rw (find_topic, e, n) at h))
    | inr (j, n) ↦
        let next : suc j ≡ i = cc (rw (find_topic, e, n) at h) in
        omega (arith, next, find_topic-below topic ts j n)
  ]
]

-- Nothing was taken by a topic that is not there.
pub taken-beyond :
    (n : ℕ) (xs : List Publishing)
    → Every (λ x. PointsBelow n x.stage) xs
    → total (taken_from n) xs ≡ 0
taken-beyond n [] h = refl
taken-beyond n (x ∷ xs) (rest, q) = omega (arith, taken-beyond n xs rest, below x.stage q)
  where
    below : (s : Stage) → PointsBelow n s → taken_by n s ≡ 0
    below checked h = refl
    below registered h = refl
    below (sending i) h = refl
    below (blocked i) h = refl
    below (accepted i) h = ground arith
    below (refused e) h = refl

pub PointsBelow-grow : (n : ℕ) (s : Stage) → PointsBelow n s → PointsBelow (suc n) s
PointsBelow-grow n checked h = tt
PointsBelow-grow n registered h = tt
PointsBelow-grow n (sending i) h = omega (arith, h)
PointsBelow-grow n (blocked i) h = omega (arith, h)
PointsBelow-grow n (accepted i) h = omega (arith, h)
PointsBelow-grow n (refused e) h = tt

pub grow-IsOrderly :
    (topic : String) (b : Bus)
    → b.closed ≡ false
    → IsOrderly b
    → IsOrderly (record b { topics = b.topics ++ new_topic topic ∷ [] })
unfolding new_topic
grow-IsOrderly topic b c h =
    let longer : length (b.topics ++ new_topic topic ∷ []) ≡ suc (length b.topics) =
      length-append b.topics (new_topic topic ∷ []) ∙ omega arith in
    record {
      queues = Every-append IsQueue b.topics _ h.queues (tt, new_topic-IsQueue topic);
      fits =
          Every-append (Fits b.phase) b.topics (new_topic topic ∷ []) h.fits
            (tt, rw (open_phase b c h) (refl, refl));
      flag = h.flag;
      done_flag = h.done_flag;
      counted = h.counted;
      gone = h.gone;
      accounted = λ i t g. elim (get-snoc b.topics (new_topic topic) i t g) [
        | inl was ↦ h.accounted i t was
        | inr (at, new) ↦
            ap (λ z. length z.sent) new
            ∙ sym (
                ap (λ j. total (taken_from j) b.publishes) at
                ∙ taken-beyond (length b.topics) b.publishes h.in_range)
      ];
      in_range =
          Every-map _ _ b.publishes
            (λ x q. rw longer (PointsBelow-grow (length b.topics) x.stage q)) h.in_range;
      calm = h.calm;
    }

-- A call of Publish that leaves the wait group without an envelope taken.
pub leave-IsOrderly :
    (p : ℕ) (x : Publishing) (e : Error) (b : Bus)
    → get_elem? b.publishes p ≡ some x
    → busy x.stage ≡ 1
    → ((i : ℕ) → taken_by i x.stage ≡ 0)
    → IsOrderly b
    → IsOrderly (leave p (refused e) b)
unfolding leave set_stage
leave-IsOrderly p x e b at was before h =
    restage-IsOrderly p x (refused e) (b.in_flight - 1) b at
      (omega (arith, was, busy_counted p x b at h)) before (λ i. refl) tt
      (λ g. omega (arith, h.gone g)) h

-- A call that moves on within the wait group.
pub move-IsOrderly :
    (p : ℕ) (x : Publishing) (s : Stage) (b : Bus)
    → get_elem? b.publishes p ≡ some x
    → busy x.stage ≡ busy s
    → ((i : ℕ) → taken_by i x.stage ≡ 0)
    → ((i : ℕ) → taken_by i s ≡ 0)
    → PointsBelow (length b.topics) s
    → IsOrderly b
    → IsOrderly (set_stage p s b)
unfolding set_stage
move-IsOrderly p x s b at same before after points h =
    restage-IsOrderly p x s b.in_flight b at (omega (arith, same)) before after points h.gone h

taken_self : (i j : ℕ) → i ≡ j → taken_by j (accepted i) ≡ 1
taken_self i j h = ground arith

taken_other : (i j : ℕ) → i ≢ j → taken_by j (accepted i) ≡ 0
taken_other i j h = ground arith

Fits-send :
    (ph : Phase) (y : TopicState) (l : List Envelope) → Fits ph y → Fits ph (record y { sent = l })
Fits-send opened y l h = h
Fits-send marked y l h = h
Fits-send signalled y l h = h
Fits-send closing y l h = h
Fits-send waiting y l h = h
Fits-send finished y l h = h

pub accept-IsOrderly :
    (p i : ℕ) (x : Publishing) (t : TopicState) (b : Bus)
    → get_elem? b.publishes p ≡ some x
    → get_elem? b.topics i ≡ some t
    → busy x.stage ≡ 1
    → ((j : ℕ) → taken_by j x.stage ≡ 0)
    → t.ch_closed ≡ false
    → i < length b.topics
    → IsOrderly b
    → IsOrderly (record (leave p (accepted i) b) {
      topics = update_at i (λ y. record y { sent = y.sent ++ x.envelope ∷ [] }) b.topics;
    })
unfolding leave set_stage
accept-IsOrderly p i x t b at there was before is_open below h =
    let send = λ (y : TopicState). record y { sent = y.sent ++ x.envelope ∷ [] } in
    record {
      queues =
          Every-update_at IsQueue i send b.topics
            (λ y e q.
              send-IsQueue y x.envelope
                (ap (λ z. elim z [ none ↦ false | some w ↦ w.ch_closed ]) (sym e ∙ there) ∙ is_open)
                q)
            h.queues;
      fits =
          Every-update_at (Fits b.phase) i send b.topics (λ y e q. Fits-send b.phase y _ q) h.fits;
      flag = h.flag;
      done_flag = h.done_flag;
      counted = omega (
        arith,
        was,
        h.counted,
        busy_counted p x b at h,
        total-update_at busy_of p (λ y. record y { stage = accepted i }) b.publishes x at,
      );
      gone = λ g. omega (arith, h.gone g);
      accounted = λ j y g.
          let (z, was_there, how) = get-update_at i send b.topics j y g in
          let moved =
            total-update_at (taken_from j) p (λ w. record w { stage = accepted i }) b.publishes x
              at in
          elim how [
            | inl (same, c) ↦
                ap (λ w. length w.sent) c
                ∙ omega (
                  arith,
                  length-append z.sent (x.envelope ∷ []),
                  h.accounted j z was_there,
                  before j,
                  moved,
                  taken_self i j same,
                )
            | inr (other, c) ↦
                ap (λ w. length w.sent) c
                ∙ omega (arith, h.accounted j z was_there, before j, moved, taken_other i j other)
          ];
      in_range =
          Every-update_at _ p (λ y. record y { stage = accepted i }) b.publishes
            (λ y e q. rw (length-update_at i send b.topics) below)
            (rw (length-update_at i send b.topics) h.in_range);
      calm = h.calm;
    }
