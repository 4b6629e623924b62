-- ===== src/Outbox/Consumer.antt =====
-- core/pkg/outbox/consumer.go: the loop that receives, publishes with retries and remembers.

pub mod Rounds
pub mod Once
use watchkeepers.Prelude.{
  ℕ, zero, suc, ◌+◌, String, Bytes, Bool, true, false, ◌||◌, Option, none, some, List, [], ◌∷◌,
  ◌++◌, if◌then◌else◌, ◌==◌, string_eq,
}
use watchkeepers.Go.Errors.{Error, sentinel, wrap, wrap_two, Result, ok, err, is_error}
use watchkeepers.Go.Context.{canceled, deadline_exceeded}
use watchkeepers.Outbox.Dedup.{LruDedup, seen, remember}
use watchkeepers.Outbox.Backoff.{backoff_base}

-- A `keepclient.Event`, and the `DeliveredEvent` made of it.
pub record Event : Type 0 where
  pub id : String
  pub event_type : String
  pub payload : Bytes

pub record DeliveredEvent : Type 0 where
  pub id : String
  pub event_type : String
  pub payload : Bytes

-- The entries that the consumer logs, with their fields but the error's type.
pub data LogEntry : Type 0 where
  subscribe_failed stream_error : LogEntry
  malformed_event : String → LogEntry
  attempt_failed : String → String → ℕ → LogEntry
  publish_exhausted : String → String → LogEntry

pub record Config : Type 0 where
  pub max_publish_retries : ℕ
  pub retry_initial_delay : ℕ
  pub retry_max_delay : ℕ

-- What the consumer calls: `ctx.Err`, the sleeper, the bus, and the jitter of a delay, which the
-- code computes in floating point.
pub record Surroundings (W : Type 0) : Type 0 where
  pub ctx_err : W → Option Error
  pub sleep : ℕ → W → Option Error × W
  pub publish : DeliveredEvent → W → Option Error × W
  pub jitter : ℕ → W → ℕ × W

-- `calls` are the calls of the bus with their results, in order.
pub record State (W : Type 0) : Type 0 where
  pub dedup : Option LruDedup
  pub calls : List (DeliveredEvent × Option Error)
  pub log : List LogEntry
  pub env : W

abbrev pub err_publish_exhausted : String
err_publish_exhausted = "ErrPublishExhausted"

abbrev err_stream_closed : String
err_stream_closed = "keepclient.ErrStreamClosed"

abbrev pub is_context_error : Error → Bool
is_context_error e = is_error e canceled || is_error e deadline_exceeded

-- The error of a used-up budget, over the last attempt's.
exhausted : Option Error → Error
exhausted none = wrap "%w: %w" (sentinel err_publish_exhausted)
exhausted (some e) = wrap_two "%w: %w" (sentinel err_publish_exhausted) e

-- A publish that failed with a cancellation ends the retries if the caller's context is done.
cancelled_by : Error → Option Error → Option Error
cancelled_by e ctx_err = if is_error e canceled then ctx_err else none

abbrev add_log : {W : Type 0} → LogEntry → State W → State W
add_log entry s = record s { log = s.log ++ entry ∷ [] }

-- The cache is there unless deduplication is disabled.
abbrev pub seen_in : Option LruDedup → String → Bool
seen_in none id = false
seen_in (some l) id = seen id l

abbrev pub remember_in : Option LruDedup → String → Option LruDedup
remember_in none id = none
remember_in (some l) id = some (remember id l)

abbrev pub deliver : Event → DeliveredEvent
deliver ev = record { id = ev.id; event_type = ev.event_type; payload = ev.payload }

module _ {W : Type 0} (cfg : Config) (around : Surroundings W) where
  -- The sleep before every attempt but the first.
  pause : ℕ → State W → Option Error × State W
  pause zero s = (none, s)
  pause (suc n) s =
      let (delay, w) =
        around.jitter (backoff_base n cfg.retry_initial_delay cfg.retry_max_delay) s.env in
      let (slept, w') = around.sleep delay w in (slept, record s { env = w' })

  publish_once : DeliveredEvent → State W → Option Error × State W
  publish_once ev s =
      let (e, w) = around.publish ev s.env in
      (e, record s { calls = s.calls ++ (ev, e) ∷ []; env = w })

  -- The loop of `publishWithRetry` with `left` attempts left, at attempt `attempt`.
  attempts : ℕ → ℕ → Option Error → DeliveredEvent → State W → Option Error × State W
  attempts zero attempt last ev s = (some (exhausted last), s)
  attempts (suc left) attempt last ev s = elim (around.ctx_err s.env) [
    | some e ↦ (some e, s)
    | none ↦
        let (slept, s₁) = pause attempt s in
        elim slept [
          | some e ↦ (some e, s₁)
          | none ↦
              let (failure, s₂) = publish_once ev s₁ in
              elim failure [
                | none ↦ (none, s₂)
                | some e ↦ elim (cancelled_by e (around.ctx_err s₂.env)) [
                  | some c ↦ (some c, s₂)
                  | none ↦
                      attempts left (suc attempt) (some e) ev
                        (add_log (attempt_failed ev.id ev.event_type (attempt + 1)) s₂)
                ]
              ]
        ]
  ]

  unfoldable pub publish_with_retry : DeliveredEvent → State W → Option Error × State W
  unfolding attempts pause publish_once exhausted cancelled_by
  publish_with_retry ev s = attempts cfg.max_publish_retries 0 none ev s

  -- What `handleEvent` does after the publish.
  settle : Event → Option Error × State W → State W
  settle ev (none, s) = record s { dedup = remember_in s.dedup ev.id }
  settle ev (some e, s) =
      if is_context_error e then s else add_log (publish_exhausted ev.id ev.event_type) s

  pub handle_event : Event → State W → State W
  unfolding settle
  handle_event ev s =
      if ev.event_type == ""
      then add_log (malformed_event ev.id) s
      else if seen_in s.dedup ev.id
      then s
      else settle ev (publish_with_retry (deliver ev) s)

  pub handle_events : List Event → State W → State W
  handle_events [] s = s
  handle_events (ev ∷ evs) s = handle_events evs (handle_event ev s)

  -- How the loop of `run` ends on an error of `Next`: the error that `Stop` will return.
  end_stream : Error → State W → Option Error × State W
  end_stream e s =
      if is_context_error e
      then (none, s)
      else if is_error e err_stream_closed
      then (none, s)
      else (some (wrap "outbox: stream: %w" e), add_log stream_error s)

  -- The loop of `run` over what `Next` returns; it waits where the list ends.
  receive : List (Result Event) → State W → Option Error × State W
  receive [] s = (none, s)
  receive (err e ∷ rest) s = end_stream e s
  receive (ok ev ∷ rest) s = receive rest (handle_event ev s)

  -- `run`, with what `Subscribe` returns: an error, or a stream.
  pub run : Result (List (Result Event)) → State W → Option Error × State W
  unfolding receive end_stream
  run (err e) s = (some (wrap "outbox: subscribe: %w" e), add_log subscribe_failed s)
  run (ok stream) s = receive stream s
