-- ===== src/EventBus/Returns.antt =====
-- That Close can return: from any state after it began, the goroutines that are there can bring it to its
-- end.
use watchkeepers.Prelude.{
  if_both, nat_eq_iff, ℕ, zero, suc, ◌+◌, ◌-◌, ◌≤◌, ◌<◌, ◌≡◌, refl, ◌∙◌, ap, Bool, true, false,
  List, [], ◌∷◌, Option-cases, Bool-cases, inl, inr, arith, length, get_elem?, update_at,
  if◌then◌else◌, Every-get, total, total-update_at, total-someone, ◌==◌, string_eq, number_eq, ℤ,
}
use watchkeepers.EventBus.{
  Worker, idle, in_round, ended, TopicState, Phase, opened, marked, signalled, closing, waiting,
  finished, Bus, new_bus, work, run_topic, worker_ended, no_one_listed, all_ended, close_from,
  close_at, close_channel, BusOp, work_op, close_channel_op, bus_op, bus_ops,
}
use watchkeepers.EventBus.Topics.{IsQueue}
use watchkeepers.EventBus.Orderly.{has_begun, Fits, IsOrderly}
use watchkeepers.EventBus.Closing.{bus-IsOrderly}
use watchkeepers.EventBus.Topics.{take-get}
use watchkeepers.EventBus.Progress.{
  Reaches, reach-here, reach-then, to_do_of, descend, close-reach, Shorter, publishers-leave,
}

abbrev pub listed : TopicState → ℕ
listed t = if t.to_close then 1 else 0

nothing_listed : (ts : List TopicState) → total listed ts ≡ 0 → no_one_listed ts ≡ true
unfolding no_one_listed
nothing_listed [] h = refl
nothing_listed (t ∷ ts) h = elim (Bool-cases t.to_close) [
  | inl e ↦ let gone : 1 + total listed ts ≡ 0 = rw e at h in absurd (omega (arith, gone))
  | inr e ↦
      let rest : 0 + total listed ts ≡ 0 = rw e at h in
      rw (no_one_listed, e) (nothing_listed ts (omega (arith, rest)))
]

channels-close :
    (b : Bus)
    → IsOrderly b
    → b.phase ≡ closing
    → Shorter closing waiting (λ c. total listed c.topics) b
unfolding bus_op close_from close_channel close_at Shorter
channels-close b h ph = elim (Bool-cases (total listed b.topics == 0)) [
  | inl e ↦
      let none_left = nothing_listed b.topics ((nat_eq_iff _ 0).0 e) in
      inl (close-reach closing waiting b ph (rw none_left refl))
  | inr e ↦
      let (i, t, there, counts) = total-someone listed b.topics (ground (arith, e)) in
      let on_list : t.to_close ≡ true = is_listed t.to_close counts in
      let shut : TopicState → TopicState = λ x. record x { to_close = false; ch_closed = true } in
      let step : close_channel i b ≡ record b {
        topics = update_at i shut b.topics;
        panicked = if t.ch_closed then true else b.panicked;
      } =
        ap (λ z. close_at z i (get_elem? b.topics i) b) ph
        ∙ (ap (λ z. close_at closing i z b) there ∙ rw on_list refl) in
      let moved = total-update_at listed i shut b.topics t there in
      inr (
        close_channel_op i,
        refl,
        rw step (omega (arith, moved, counts)),
        ap (λ z. z.phase) step ∙ ph,
      )
]
  where
    is_listed : (l : Bool) → 1 ≤ (if l then 1 else 0) → l ≡ true
    is_listed true c = refl
    is_listed false c = absurd (omega (arith, c))

-- What a topic's worker has still to do: the round it is in, and one for each envelope that is left.
abbrev pub rounds_left : ℕ → ℕ → ℕ
rounds_left subs zero = 0
rounds_left subs (suc n) = subs + 2 + rounds_left subs n

abbrev pub round_left : Worker → ℕ
round_left idle = 1
round_left (in_round env hs) = length hs + 2
round_left ended = 0

abbrev pub work_left : TopicState → ℕ
work_left t = round_left t.worker + rounds_left (length t.subs) (length t.sent - t.received)

-- In the last phase a worker that has not returned goes on.
work-less :
    (w : Worker) (t : TopicState)
    → t.worker ≡ w
    → t.ch_closed ≡ true
    → 1 ≤ round_left w
    → IsQueue t
    → work_left (work w t) < work_left t
unfolding work
work-less ended t at c l q = absurd (omega (arith, l))
work-less (in_round env []) t at c l q = omega (arith, ap round_left at)
work-less (in_round env (x ∷ hs)) t at c l q = omega (arith, ap round_left at)
work-less idle t at c l q = elim (Option-cases (get_elem? t.sent t.received)) [
  | inr (env, g) ↦
      let room = (take-get t.received t.sent env g).1 in
      let one_less : length t.sent - t.received ≡ suc (length t.sent - (t.received + 1)) =
        omega (arith, room) in
      let unrolled : rounds_left (length t.subs) (length t.sent - t.received)
          ≡ length t.subs + 2 + rounds_left (length t.subs) (length t.sent - (t.received + 1)) =
        ap (rounds_left (length t.subs)) one_less in
      rw (work, g) (omega (arith, ap round_left at, unrolled))
  | inl g ↦
      rw (work, g)
        (if_both (λ (z : TopicState). work_left z < work_left t) t.ch_closed _ _
          (λ e. omega (arith, ap round_left at)) (λ e. absurd (cc (e, c))))
]

round-ended : (w : Worker) → round_left w ≡ 0 → worker_ended w ≡ true
unfolding worker_ended
round-ended idle h = absurd (omega (arith, h))
round-ended (in_round env hs) h = absurd (omega (arith, h))
round-ended ended h = refl

abbrev round_of : TopicState → ℕ
round_of t = round_left t.worker

all_returned : (ts : List TopicState) → total round_of ts ≡ 0 → all_ended ts ≡ true
unfolding all_ended
all_returned [] h = refl
all_returned (t ∷ ts) h =
    rw (all_ended, round-ended t.worker (omega (arith, h))) (all_returned ts (omega (arith, h)))

workers-return :
    (b : Bus)
    → IsOrderly b
    → b.phase ≡ waiting
    → Shorter waiting finished (λ c. total work_left c.topics) b
unfolding bus_op close_from run_topic Shorter
workers-return b h ph = elim (Bool-cases (total round_of b.topics == 0)) [
  | inl e ↦
      let returned = all_returned b.topics ((nat_eq_iff _ 0).0 e) in
      inl (close-reach waiting finished b ph (rw returned refl))
  | inr e ↦
      let (i, t, there, counts) = total-someone round_of b.topics (ground (arith, e)) in
      let fit : Fits b.phase t = Every-get (Fits b.phase) b.topics i t h.fits there in
      let here : Fits waiting t = rw ph at fit in
      let q : IsQueue t = Every-get IsQueue b.topics i t h.queues there in
      let less = work-less t.worker t refl here.0 counts q in
      let moved = total-update_at work_left i (λ y. work y.worker y) b.topics t there in
      inr (work_op i, refl, omega (arith, moved, less), ph)
]

from-waiting : (b : Bus) → IsOrderly b → b.phase ≡ waiting → Reaches finished b
from-waiting b h ph =
    descend waiting finished (λ c. total work_left c.topics) workers-return
      (total work_left b.topics) b h ph (omega arith)

from-closing : (b : Bus) → IsOrderly b → b.phase ≡ closing → Reaches finished b
from-closing b h ph =
    reach-then waiting finished b h
      (descend closing waiting (λ c. total listed c.topics) channels-close (total listed b.topics) b
        h ph (omega arith))
      from-waiting

from-signalled : (b : Bus) → IsOrderly b → b.phase ≡ signalled → Reaches finished b
from-signalled b h ph =
    reach-then closing finished b h
      (descend signalled closing (λ c. total to_do_of c.publishes) publishers-leave
        (total to_do_of b.publishes) b h ph (omega arith))
      from-closing

pub from-phase :
    (ph : Phase) (b : Bus) → IsOrderly b → b.phase ≡ ph → has_begun ph ≡ true → Reaches finished b
unfolding close_from
from-phase opened b h at begun = absurd (cc begun)
from-phase marked b h at begun =
    reach-then signalled finished b h (close-reach marked signalled b at refl) from-signalled
from-phase signalled b h at begun = from-signalled b h at
from-phase closing b h at begun = from-closing b h at
from-phase waiting b h at begun = from-waiting b h at
from-phase finished b h at begun = reach-here finished b at

-- From every state that any steps on a new bus lead to after Close has begun, some steps of the goroutines
-- that are there, none of them a new call of Publish or Subscribe, bring Close to its return. A handler that
-- is called returns in the model: its call is one step.
close-Reaches :
    (n : ℤ) (os : List BusOp)
    → has_begun (bus_ops os (new_bus n)).phase ≡ true
    → Reaches finished (bus_ops os (new_bus n))
close-Reaches n os begun = from-phase _ (bus_ops os (new_bus n)) (bus-IsOrderly n os) refl begun
