-- ===== src/Publish/Stream.antt =====
-- A subscriber is sent every event of its scope in order, up to the point where it is dropped.
use watchkeepers.Prelude.{
  ℕ, suc, ◌+◌, ◌^◌, ◌<◌, ◌≡◌, refl, sym, ap, ◌∙◌, true, false, none, some, List, [], ◌∷◌, ◌++◌,
  append-nil, append_assoc, put_self, number_eq, string_eq, ◌==◌, if◌then◌else◌, length, Bool-cases,
  inl, inr, arith, String,
}
use mathlib.Core.Path.{subst}
use watchkeepers.Publish.{
  Event, Registry, Op, subscribe_op, publish_op, unsubscribe_op, close_op, receive_op, subscribe,
  close_locked, publish, close, take_one, op, ops,
}
use watchkeepers.Publish.Feed.{
  count, member, Live, Gone, Same-Live, close_each-member, close_locked-other, close_locked_self,
}
use watchkeepers.Publish.Fanout.{publish-After, After, untouched, delivered, dropped}
use watchkeepers.Publish.Kept.{
  InRange, op-InRange, subscribe-Same, closed-publish, closed-close_locked, closed-take_one,
}
use watchkeepers.Publish.Reader.{take_one-Live, ops-Gone}

-- The events of a scope that the operations publish.
abbrev pub matching : String → List Op → List Event
matching scope [] = []
matching scope (subscribe_op s ∷ os) = matching scope os
matching scope (publish_op (some e) ev order ∷ os) = matching scope os
matching scope (publish_op none ev order ∷ os) =
    let rest = matching scope os in if scope == ev.scope then ev ∷ rest else rest
matching scope (unsubscribe_op id ∷ os) = matching scope os
matching scope (close_op order ∷ os) = matching scope os
matching scope (receive_op id ∷ os) = matching scope os

-- Every iteration meets the id once.
abbrev pub Meets : ℕ → List Op → Type 0
Meets i [] = Unit
Meets i (subscribe_op s ∷ os) = Meets i os
Meets i (publish_op e ev order ∷ os) = (count i order ≡ 1) × Meets i os
Meets i (unsubscribe_op id ∷ os) = Meets i os
Meets i (close_op order ∷ os) = (count i order ≡ 1) × Meets i os
Meets i (receive_op id ∷ os) = Meets i os

-- The subscription still streams and was sent `log` and then all of `events`; or it has stopped,
-- its channel closed, and was sent `log` and then the events up to a point.
pub data Streamed (i : ℕ) (scope : String) (log events : List Event) (r : Registry) : Type 0 where
  streaming : Live i scope (log ++ events) r → Streamed i scope log events r
  stopped :
      (before after : List Event)
      → events ≡ before ++ after
      → Gone i (log ++ before) r
      → Streamed i scope log events r

one_more :
    (i : ℕ) (scope : String) (log : List Event) (ev : Event) (events : List Event) (r : Registry)
    → Streamed i scope (log ++ ev ∷ []) events r
    → Streamed i scope log (ev ∷ events) r
one_more i scope log ev events r (streaming h) =
    streaming (subst (λ l. Live i scope l r) (append_assoc log (ev ∷ []) events) h)
one_more i scope log ev events r (stopped before after e h) =
    stopped (ev ∷ before) after (ap (λ l. ev ∷ l) e)
      (subst (λ l. Gone i l r) (append_assoc log (ev ∷ []) before) h)

stopped_now :
    (i : ℕ) (scope : String) (log events : List Event) (r : Registry)
    → Gone i log r
    → Streamed i scope log events r
stopped_now i scope log events r h =
    stopped [] events refl (subst (λ l. Gone i l r) (sym (append-nil log)) h)

count-member : (i : ℕ) (ids : List ℕ) → count i ids ≡ 1 → member i ids ≡ true
count-member i [] h = absurd (omega arith)
count-member i (x ∷ xs) h = ground (arith, count-member i xs)

close-Live :
    (i : ℕ) (order : List ℕ) (scope : String) (log : List Event) (r : Registry)
    → r.closed ≡ false
    → count i order ≡ 1
    → Live i scope log r
    → Gone i log (close order r)
unfolding close
close-Live i order scope log r running c h = simp running (
    close_each-member i order scope log (record r { closed = true }) (count-member i order c)
      (record {
        sub = h.sub;
        ch = h.ch;
        subscribed = h.subscribed;
        has_scope = h.has_scope;
        not_done = h.not_done;
        has_channel = h.has_channel;
        is_open = h.is_open;
        was_sent = h.was_sent;
      }))

subscribe-running :
    (scope : String) (r : Registry) → r.closed ≡ false → (subscribe scope r).1.closed ≡ false
unfolding subscribe
subscribe-running scope r h = ground (arith, h)

-- One step of a live subscription, for the steps that leave it live with the same log.
publish_step :
    (i : ℕ) (scope : String) (ev : Event) (order : List ℕ) (os : List Op) (log : List Event)
    (s : Registry)
    → InRange i (length os) s
    → ((l : List Event) → Live i scope l s → Streamed i scope l (matching scope os) (ops os s))
    → After i scope log ev s
    → Streamed i scope log (matching scope (publish_op none ev order ∷ os)) (ops os s)
publish_step i scope ev order os log s b next (untouched n h) = rw n (next log h)
publish_step i scope ev order os log s b next (delivered y h) =
    rw y (one_more i scope log ev (matching scope os) (ops os s) (next (log ++ ev ∷ []) h))
publish_step i scope ev order os log s b next (dropped y h) =
    rw y (stopped_now i scope log (ev ∷ matching scope os) (ops os s) (ops-Gone i os log s b h))

-- A live subscription with an id below the counter, which does not wrap, on an open registry whose
-- iterations meet it once, is sent after `log` every event of its scope that is published, in order
-- and once: all of them while it lives, and those up to a point, after which its channel is closed,
-- if it stops.
no_gap :
    (i : ℕ) (scope : String) (os : List Op) (log : List Event) (r : Registry)
    → InRange i (length os) r
    → r.closed ≡ false
    → Meets i os
    → Live i scope log r
    → Streamed i scope log (matching scope os) (ops os r)
unfolding ops op
no_gap i scope [] log r b running m h =
    streaming (subst (λ l. Live i scope l r) (sym (append-nil log)) h)
no_gap i scope (subscribe_op other ∷ os) log r b running m h =
    no_gap i scope os log (subscribe other r).1 (op-InRange i (length os) (subscribe_op other) r b)
      (subscribe-running other r running) m
      (Same-Live i scope log r (subscribe other r).1 (subscribe-Same i other r b.0) h)
no_gap i scope (publish_op (some e) ev order ∷ os) log r b running m h =
    unfold publish in no_gap i scope os log r (b.0, omega (arith, b.1)) running m.1 h
no_gap i scope (publish_op none ev order ∷ os) log r b running m h =
    publish_step i scope ev order os log (publish none ev order r).1
      (op-InRange i (length os) (publish_op none ev order) r b)
      (λ l live.
        no_gap i scope os l (publish none ev order r).1
          (op-InRange i (length os) (publish_op none ev order) r b)
          ((closed-publish ev order r).0 ∙ running) m.1 live)
      (publish-After ev i order scope log r running m.0 h)
no_gap i scope (unsubscribe_op id ∷ os) log r b running m h =
    let range = op-InRange i (length os) (unsubscribe_op id) r b in
    elim (Bool-cases (id == i)) [
      | inl e ↦ stopped_now i scope log (matching scope os) _ (
          ops-Gone i os log (close_locked id r) range (
            subst (λ j. Gone i log (close_locked j r)) (sym ((number_eq.same_iff id i).0 e))
              (close_locked_self i scope log r h)))
      | inr e ↦
          no_gap i scope os log (close_locked id r) range ((closed-close_locked id r).0 ∙ running) m
            (Same-Live i scope log r (close_locked id r)
              (close_locked-other i id r (λ w. cc (e, (number_eq.same_iff id i).1 w))) h)
    ]
no_gap i scope (close_op order ∷ os) log r b running m h =
    stopped_now i scope log (matching scope os) _ (
      ops-Gone i os log (close order r) (op-InRange i (length os) (close_op order) r b)
        (close-Live i order scope log r running m.0 h))
no_gap i scope (receive_op id ∷ os) log r b running m h =
    no_gap i scope os log (take_one id r) (op-InRange i (length os) (receive_op id) r b)
      ((closed-take_one id r).0 ∙ running) m (take_one-Live i id scope log r h)

new-Live :
    (scope : String) (r : Registry)
    → r.closed ≡ false
    → Live r.next_id scope [] (subscribe scope r).1
unfolding subscribe
new-Live scope r running = simp running (record {
  sub = record { scope = scope; done = false };
  ch = record { sent = []; received = 0; closed = false };
  subscribed = put_self r.next_id _ r.subs;
  has_scope = refl;
  not_done = refl;
  has_channel = put_self r.next_id _ r.channels;
  is_open = refl;
  was_sent = refl;
})

new-InRange :
    (scope : String) (n : ℕ) (r : Registry)
    → r.closed ≡ false
    → r.next_id + suc n < 2 ^ 64
    → InRange r.next_id n (subscribe scope r).1
unfolding subscribe
new-InRange scope n r running small = simp running (omega (arith, small), omega (arith, small))

-- A subscriber of an open registry, when the counter does not wrap and every iteration meets its id
-- once, is sent the events of its scope that are published after its subscription, in order, each
-- once: all of them while it is subscribed, and those up to a point, after which its channel is
-- closed, if it stops.
pub subscriber_stream :
    (scope : String) (os : List Op) (r : Registry)
    → r.closed ≡ false
    → r.next_id + suc (length os) < 2 ^ 64
    → Meets r.next_id os
    → Streamed r.next_id scope [] (matching scope os) (ops os (subscribe scope r).1)
subscriber_stream scope os r running small meets =
    no_gap r.next_id scope os [] (subscribe scope r).1
      (new-InRange scope (length os) r running small) (subscribe-running scope r running) meets
      (new-Live scope r running)
