-- ===== src/Outbox/Consumer/Rounds.antt =====
-- What one event does to the bus: an independent account of the retry loop.
use watchkeepers.Prelude.{
  ℕ, zero, suc, ◌≡◌, refl, ◌∙◌, Bool, true, false, Option, none, some, List, [], ◌∷◌, ◌++◌, ◌+◌,
  append-nil, append_assoc, Option-cases, inl, inr, Bool-cases, if◌then◌else◌, ◌==◌, string_eq,
}
use watchkeepers.Go.Errors.{Error}
use watchkeepers.Outbox.Consumer.{
  Event, DeliveredEvent, Config, Surroundings, State, pause, publish_once, attempts,
  publish_with_retry, settle, deliver, handle_event, seen_in, remember_in, cancelled_by, add_log,
  attempt_failed, is_context_error,
}

-- At most `n` calls of the bus with `ev`: all fail but the last of a round that succeeds.
pub data IsRound (ev : DeliveredEvent)
    : ℕ → Bool → List (DeliveredEvent × Option Error) → Type 0 where
  gave_up : (n : ℕ) → IsRound ev n false []
  published : (n : ℕ) → IsRound ev (suc n) true ((ev, none) ∷ [])
  tried :
      {n : ℕ} {done : Bool} {calls : List (DeliveredEvent × Option Error)} (e : Error)
      → IsRound ev n done calls
      → IsRound ev (suc n) done ((ev, some e) ∷ calls)

abbrev pub is_none : Option Error → Bool
is_none none = true
is_none (some e) = false

-- From `s` to `r` there was one such round, and the cache is as it was.
pub record RoundFrom {W : Type 0} (ev : DeliveredEvent) (n : ℕ) (s : State W)
    (r : Option Error × State W) : Type 0 where
  pub made : List (DeliveredEvent × Option Error)
  pub added : r.1.calls ≡ s.calls ++ made
  pub is_round : IsRound ev n (is_none r.0) made
  pub same_cache : r.1.dedup ≡ s.dedup

module _ {W : Type 0} (cfg : Config) (around : Surroundings W) where
  pause_frame :
      (n : ℕ) (s : State W)
      → ((pause cfg around n s).1.calls ≡ s.calls) × ((pause cfg around n s).1.dedup ≡ s.dedup)
  unfolding pause
  pause_frame zero s = (refl, refl)
  pause_frame (suc n) s = (refl, refl)

  nothing :
      (ev : DeliveredEvent) (n : ℕ) (s t : State W) (e : Error)
      → t.calls ≡ s.calls
      → t.dedup ≡ s.dedup
      → RoundFrom ev n s (some e, t)
  nothing ev n s t e c d = record {
    made = [];
    added = rw append-nil c;
    is_round = gave_up n;
    same_cache = d;
  }

  publish_once_frame :
      (ev : DeliveredEvent) (s : State W)
      → ((publish_once cfg around ev s).1.calls
          ≡ s.calls ++ (ev, (publish_once cfg around ev s).0) ∷ [])
        × ((publish_once cfg around ev s).1.dedup ≡ s.dedup)
  unfolding publish_once
  publish_once_frame ev s = (refl, refl)

  -- One call and no more.
  one_call :
      (ev : DeliveredEvent) (n : ℕ) (s s₁ : State W) (r e : Option Error) (t : State W)
      → s₁.calls ≡ s.calls
      → s₁.dedup ≡ s.dedup
      → t.calls ≡ s₁.calls ++ (ev, e) ∷ []
      → t.dedup ≡ s₁.dedup
      → IsRound ev n (is_none r) ((ev, e) ∷ [])
      → RoundFrom ev n s (r, t)
  one_call ev n s s₁ r e t c d c' d' round = record {
    made = (ev, e) ∷ [];
    added = c' ∙ rw c;
    is_round = round;
    same_cache = d' ∙ d;
  }

  -- A failed call, and then a round.
  one_more :
      (ev : DeliveredEvent) (n : ℕ) (s s₁ s₂ : State W) (e : Error) (r : Option Error × State W)
      → s₁.calls ≡ s.calls
      → s₁.dedup ≡ s.dedup
      → s₂.calls ≡ s₁.calls ++ (ev, some e) ∷ []
      → s₂.dedup ≡ s₁.dedup
      → RoundFrom ev n s₂ r
      → RoundFrom ev (suc n) s r
  one_more ev n s s₁ s₂ e r c d c' d' round = record {
    made = (ev, some e) ∷ round.made;
    added = round.added ∙ (rw (c', c, append_assoc));
    is_round = tried e round.is_round;
    same_cache = round.same_cache ∙ d' ∙ d;
  }

  attempts_round :
      (left attempt : ℕ) (last : Option Error) (ev : DeliveredEvent) (s : State W)
      → RoundFrom ev left s (attempts cfg around left attempt last ev s)
  unfolding attempts
  attempts_round zero attempt last ev s = nothing ev zero s s _ refl refl
  attempts_round (suc left) attempt last ev s =
      let s₁ = (pause cfg around attempt s).1 in
      let (c₁, d₁) = pause_frame attempt s in
      let s₂ = (publish_once cfg around ev s₁).1 in
      let (c₂, d₂) = publish_once_frame ev s₁ in
      elim (Option-cases (around.ctx_err s.env)) [
        | inr (e, x) ↦ rw (x, attempts) (nothing ev (suc left) s s e refl refl)
        | inl x ↦ elim (Option-cases (pause cfg around attempt s).0) [
          | inr (e, y) ↦ rw (x, attempts) (rw (y, attempts) (nothing ev (suc left) s s₁ e c₁ d₁))
          | inl y ↦ elim (Option-cases (publish_once cfg around ev s₁).0) [
            | inl z ↦
                rw (x, attempts)
                  (rw (y, attempts)
                    (rw (z, attempts)
                      (one_call ev (suc left) s s₁ none none s₂ c₁ d₁ (rw z at c₂) d₂
                        (published left))))
            | inr (e, z) ↦ elim (Option-cases (cancelled_by e (around.ctx_err s₂.env))) [
              | inr (k, w) ↦
                  rw (x, attempts)
                    (rw (y, attempts)
                      (rw (z, attempts)
                        (rw (w, attempts)
                          (one_call ev (suc left) s s₁ (some k) (some e) s₂ c₁ d₁ (rw z at c₂) d₂
                            (tried e (gave_up left))))))
              | inl w ↦
                  let s₃ = add_log (attempt_failed ev.id ev.event_type (attempt + 1)) s₂ in
                  let ih = attempts_round left (suc attempt) (some e) ev s₃ in
                  rw (x, attempts)
                    (rw (y, attempts)
                      (rw (z, attempts)
                        (rw (w, attempts) (one_more ev left s s₁ s₃ e _ c₁ d₁ (rw z at c₂) d₂ ih))))
            ]
          ]
        ]
      ]

  pub publish_round :
      (ev : DeliveredEvent) (s : State W)
      → RoundFrom ev cfg.max_publish_retries s (publish_with_retry cfg around ev s)
  unfolding publish_with_retry
  publish_round ev s = attempts_round cfg.max_publish_retries 0 none ev s

  -- What an event did to the calls and the cache.
  pub record Handled (ev : Event) (s t : State W) : Type 0 where
    pub made : List (DeliveredEvent × Option Error)
    pub done : Bool
    pub added : t.calls ≡ s.calls ++ made
    pub is_round : IsRound (deliver ev) cfg.max_publish_retries done made
    pub cache : t.dedup ≡ (if done then remember_in s.dedup ev.id else s.dedup)

  idle : (ev : Event) (s t : State W) → t.calls ≡ s.calls → t.dedup ≡ s.dedup → Handled ev s t
  idle ev s t c d = record {
    made = [];
    done = false;
    added = rw append-nil c;
    is_round = gave_up cfg.max_publish_retries;
    cache = d;
  }

  settle_handled :
      (ev : Event) (s : State W) (r : Option Error × State W)
      → RoundFrom (deliver ev) cfg.max_publish_retries s r
      → Handled ev s (settle cfg around ev r)
  unfolding settle
  settle_handled ev s (none, t) h = record {
    made = h.made;
    done = true;
    added = h.added;
    is_round = h.is_round;
    cache = rw h.same_cache;
  }
  settle_handled ev s (some e, t) h = elim (Bool-cases (is_context_error e)) [
    | inl x ↦ rw x (record {
      made = h.made;
      done = false;
      added = h.added;
      is_round = h.is_round;
      cache = h.same_cache;
    })
    | inr x ↦ rw x (record {
      made = h.made;
      done = false;
      added = h.added;
      is_round = h.is_round;
      cache = h.same_cache;
    })
  ]

  -- Handling an event calls the bus at most `max_publish_retries` times, only with that event, and
  -- never again after a success; and it remembers the event's id exactly if a call succeeded.
  pub handle_event_lem : (ev : Event) (s : State W) → Handled ev s (handle_event cfg around ev s)
  unfolding handle_event
  handle_event_lem ev s = elim (Bool-cases (ev.event_type == "")) [
    | inl x ↦ rw x (idle ev s _ refl refl)
    | inr x ↦ elim (Bool-cases (seen_in s.dedup ev.id)) [
      | inl y ↦ rw (x, y) (idle ev s s refl refl)
      | inr y ↦ rw (x, y) (settle_handled ev s _ (publish_round (deliver ev) s))
    ]
  ]
