-- ===== src/EventBus/Topics.antt =====
-- One topic: its channel is a queue, and its worker calls every handler of every envelope that it takes.
use watchkeepers.Prelude.{
  ℕ, zero, suc, ◌+◌, ◌≤◌, ◌<◌, ◌≡◌, refl, sym, ◌∙◌, ap, true, false, none, some, List, [], ◌∷◌,
  ◌++◌, Option-cases, Bool-cases, inl, inr, arith, length, get_elem?, take, length-append,
  append_assoc, append-nil,
}
use watchkeepers.EventBus.{
  Envelope, Worker, idle, in_round, ended, TopicState, work, worker_ended, new_topic,
}

-- The calls of a round, and those that a worker has still to make.
abbrev pub round_calls : Envelope → List ℕ → List (ℕ × Envelope)
round_calls env [] = []
round_calls env (h ∷ hs) = (h, env) ∷ round_calls env hs

abbrev pub pending : Worker → List (ℕ × Envelope)
pending idle = []
pending (in_round env hs) = round_calls env hs
pending ended = []

unfoldable pub all_calls : List (Envelope × List ℕ) → List (ℕ × Envelope)
all_calls [] = []
all_calls ((env, hs) ∷ rs) = round_calls env hs ++ all_calls rs

unfoldable pub taken_out : List (Envelope × List ℕ) → List Envelope
taken_out [] = []
taken_out ((env, hs) ∷ rs) = env ∷ taken_out rs

-- The rounds are the envelopes that were taken out, which are the oldest ones in their order; the calls
-- that were made and those of the round that is on are all the calls of the rounds; a worker that has
-- returned has emptied a closed channel.
pub record IsQueue (t : TopicState) : Type 0 where
  pub taken : t.received ≤ length t.sent
  pub fifo : taken_out t.rounds ≡ take t.received t.sent
  pub called : t.calls ++ pending t.worker ≡ all_calls t.rounds
  pub emptied : worker_ended t.worker ≡ true → (t.ch_closed ≡ true) × (t.received ≡ length t.sent)

taken_out-snoc :
    (rs : List (Envelope × List ℕ)) (env : Envelope) (hs : List ℕ)
    → taken_out (rs ++ (env, hs) ∷ []) ≡ taken_out rs ++ env ∷ []
unfolding taken_out
taken_out-snoc [] env hs = refl
taken_out-snoc ((e, h) ∷ rs) env hs = ap (λ l. e ∷ l) (taken_out-snoc rs env hs)

all_calls-snoc :
    (rs : List (Envelope × List ℕ)) (env : Envelope) (hs : List ℕ)
    → all_calls (rs ++ (env, hs) ∷ []) ≡ all_calls rs ++ round_calls env hs
unfolding all_calls
all_calls-snoc [] env hs = append-nil (round_calls env hs)
all_calls-snoc ((e, h) ∷ rs) env hs =
    ap (λ l. round_calls e h ++ l) (all_calls-snoc rs env hs)
    ∙ sym (append_assoc (round_calls e h) (all_calls rs) (round_calls env hs))

pub take-get :
    {A : Type 0} (n : ℕ) (xs : List A) (x : A)
    → get_elem? xs n ≡ some x
    → (take (suc n) xs ≡ take n xs ++ x ∷ []) × (n < length xs)
take-get n [] x h = absurd (cc h)
take-get zero (y ∷ ys) x h = let same : y ≡ x = cc h in (ap (λ z. z ∷ []) same, omega arith)
take-get (suc n) (y ∷ ys) x h =
    let (t, l) = take-get n ys x h in (ap (λ l. y ∷ l) t, omega (arith, l))

take-append : {A : Type 0} (n : ℕ) (xs ys : List A) → n ≤ length xs → take n (xs ++ ys) ≡ take n xs
take-append zero xs ys h = refl
take-append (suc n) [] ys h = absurd (omega (arith, h))
take-append (suc n) (x ∷ xs) ys h = ap (λ l. x ∷ l) (take-append n xs ys (omega (arith, h)))

pub get-beyond : {A : Type 0} (xs : List A) (n : ℕ) → get_elem? xs n ≡ none → length xs ≤ n
get-beyond [] n h = omega arith
get-beyond (x ∷ xs) zero h = absurd (cc h)
get-beyond (x ∷ xs) (suc n) h = omega (arith, get-beyond xs n h)

pub new_topic-IsQueue : (n : _) → IsQueue (new_topic n)
unfolding new_topic taken_out all_calls worker_ended
new_topic-IsQueue n = record {
  taken = omega arith;
  fifo = refl;
  called = refl;
  emptied = λ h. absurd (cc h);
}

-- A send behind the envelopes that are there.
pub send-IsQueue :
    (t : TopicState) (env : Envelope)
    → t.ch_closed ≡ false
    → IsQueue t
    → IsQueue (record t { sent = t.sent ++ env ∷ [] })
send-IsQueue t env is_open h = record {
  taken = omega (arith, h.taken, length-append t.sent (env ∷ []));
  fifo = h.fifo ∙ sym (take-append t.received t.sent (env ∷ []) h.taken);
  called = h.called;
  emptied = λ e. absurd (cc (is_open, (h.emptied e).0));
}

pub work-IsQueue : (w : Worker) (t : TopicState) → t.worker ≡ w → IsQueue t → IsQueue (work w t)
unfolding work worker_ended
work-IsQueue ended t at h = h
work-IsQueue (in_round env []) t at h = record {
  taken = h.taken;
  fifo = h.fifo;
  called = rw at at h.called;
  emptied = λ e. absurd (cc e);
}
work-IsQueue (in_round env (x ∷ hs)) t at h = record {
  taken = h.taken;
  fifo = h.fifo;
  called = append_assoc t.calls ((x, env) ∷ []) (round_calls env hs) ∙ (rw at at h.called);
  emptied = λ e. absurd (cc e);
}
work-IsQueue idle t at h = elim (Option-cases (get_elem? t.sent t.received)) [
  | inr (env, g) ↦
      let (more, room) = take-get t.received t.sent env g in
      let one : t.received + 1 ≡ suc t.received = omega arith in
      let before : t.calls ++ [] ≡ all_calls t.rounds = rw at at h.called in
      rw (work, g)
        record {
          taken = omega (arith, room);
          fifo =
              taken_out-snoc t.rounds env t.subs
              ∙ (ap (λ l. l ++ env ∷ []) h.fifo ∙ (sym more ∙ ap (λ n. take n t.sent) (sym one)));
          called =
              ap (λ l. l ++ round_calls env t.subs) (sym (append-nil t.calls) ∙ before)
              ∙ sym (all_calls-snoc t.rounds env t.subs);
          emptied = λ e. absurd (cc e);
        }
  | inl g ↦ elim (Bool-cases t.ch_closed) [
    | inr o ↦ rw (work, g) (simp o h)
    | inl c ↦
        rw (work, g)
          (simp c record {
            taken = h.taken;
            fifo = h.fifo;
            called = rw at at h.called;
            emptied = λ e. (refl, omega (arith, h.taken, get-beyond t.sent t.received g));
          })
  ]
]
