-- ===== src/Publish/Worker/Streams.antt =====
-- The worker and the hub together: what a subscriber is sent by a tick.
use watchkeepers.Prelude.{
  ℕ, suc, ◌+◌, ◌^◌, ◌<◌, ◌≡◌, refl, sym, ap, ◌∙◌, String, false, Option, none, some, List, [], ◌∷◌,
  ◌++◌, length, Option-cases, some_not_none, inl, inr, arith, ◌==◌, if◌then◌else◌, string_eq,
}
use watchkeepers.Go.Errors.{Error}
use watchkeepers.Publish.{
  Event, Registry, Op, subscribe_op, publish_op, unsubscribe_op, close_op, receive_op, subscribe,
  publish, op, ops,
}
use watchkeepers.Publish.Stream.{matching, Meets, Streamed, subscriber_stream}
use watchkeepers.Publish.Worker.{
  OutboxRow, row_to_event, Tx, Worker, Publisher, select, stamp, tick,
}
use watchkeepers.Publish.Worker.Batch.{accepted, ids_of}
use watchkeepers.Publish.Worker.Settled.{tick-Ended}

-- What a tick meets at the registry's lock: whether its context is over at the k-th call, the order of
-- the iteration there, and what other goroutines do to the registry before.
pub record Hub : Type 0 where
  pub ctx_err : ℕ → Option Error
  pub order : ℕ → List ℕ
  pub between : ℕ → List Op

unfoldable pub registry_publisher : Hub → Publisher Registry
unfolding publish ops
registry_publisher hub k ev r = publish (hub.ctx_err k) ev (hub.order k) (ops (hub.between k) r)

-- All that happens to the registry from the k-th call on.
abbrev pub calls_of : Hub → ℕ → List OutboxRow → List Op
calls_of hub k [] = []
calls_of hub k (row ∷ rows) =
    hub.between k
    ++ publish_op (hub.ctx_err k) (row_to_event row) (hub.order k) ∷ calls_of hub (suc k) rows

-- The events of the rows of a scope.
abbrev pub events_in : String → List OutboxRow → List Event
events_in scope [] = []
events_in scope (row ∷ rows) =
    let rest = events_in scope rows in if scope == row.scope then row_to_event row ∷ rest else rest

ops-append : (os os' : List Op) (r : Registry) → ops (os ++ os') r ≡ ops os' (ops os r)
unfolding ops
ops-append [] os' r = refl
ops-append (o ∷ os) os' r = ops-append os os' (op o r)

matching-append :
    (scope : String) (os os' : List Op)
    → matching scope (os ++ os') ≡ matching scope os ++ matching scope os'
matching-append scope [] os' = refl
matching-append scope (subscribe_op s ∷ os) os' = matching-append scope os os'
matching-append scope (publish_op (some e) ev order ∷ os) os' = matching-append scope os os'
matching-append scope (publish_op none ev order ∷ os) os' =
    ground (arith, matching-append scope os os')
matching-append scope (unsubscribe_op id ∷ os) os' = matching-append scope os os'
matching-append scope (close_op order ∷ os) os' = matching-append scope os os'
matching-append scope (receive_op id ∷ os) os' = matching-append scope os os'

publish_answer :
    (c : Option Error) (ev : Event) (order : List ℕ) (r : Registry) → (publish c ev order r).0 ≡ c
unfolding publish
publish_answer (some e) ev order r = refl
publish_answer none ev order r = ground arith

accepted-ops :
    (hub : Hub) (k : ℕ) (rows : List OutboxRow) (r : Registry)
    → (accepted (registry_publisher hub) k rows r).1 ≡ ops (calls_of hub k rows) r
unfolding accepted registry_publisher ops op
accepted-ops hub k [] r = refl
accepted-ops hub k (row ∷ rows) r =
    accepted-ops hub (suc k) rows _ ∙ sym (ops-append (hub.between k) _ r)

accepted-matching :
    (scope : String) (hub : Hub) (k : ℕ) (rows : List OutboxRow) (r : Registry)
    → ((j : ℕ) → matching scope (hub.between j) ≡ [])
    → matching scope (calls_of hub k rows)
      ≡ events_in scope (accepted (registry_publisher hub) k rows r).0
unfolding accepted registry_publisher
accepted-matching scope hub k [] r quiet = refl
accepted-matching scope hub k (row ∷ rows) r quiet =
    let s = ops (hub.between k) r in
    let c = hub.ctx_err k in
    let p = publish_answer c (row_to_event row) (hub.order k) s in
    let rest = λ (n : Option Error).
      accepted-matching scope hub (suc k) rows (publish n (row_to_event row) (hub.order k) s).1
        quiet in
    rw (matching-append, quiet k, p)
      (elim (Option-cases c) [ inl h ↦ rw h (rw (rest none)) | inr (e, h) ↦ rw h (rest (some e)) ])

-- A tick that returns nil, over an open registry to which a subscriber has just been added, where the
-- counter does not wrap, every iteration meets the subscriber's id once and nobody else publishes in
-- its scope: whatever other goroutines do between the calls, the subscriber is sent exactly the events
-- of its scope of the rows that the tick stamps, oldest first, each once; and if it stops, those up to a
-- point, after which its channel is closed.
pub tick-Streamed :
    (scope : String) (hub : Hub) (tx : Tx) (w : Worker Registry) (r : Registry)
    → w.hub ≡ (subscribe scope r).1
    → r.closed ≡ false
    → r.next_id + suc (length (calls_of hub 0 (select tx w.table))) < 2 ^ 64
    → Meets r.next_id (calls_of hub 0 (select tx w.table))
    → ((k : ℕ) → matching scope (hub.between k) ≡ [])
    → (tick (registry_publisher hub) tx w).0 ≡ none
    → let left = (tick (registry_publisher hub) tx w).1 in
      let taken = (accepted (registry_publisher hub) 0 (select tx w.table) w.hub).0 in
      (left.table ≡ stamp tx.now (ids_of taken) w.table)
      × Streamed r.next_id scope [] (events_in scope taken) left.hub
tick-Streamed scope hub tx w r joined running small meets quiet done =
    let rows = select tx w.table in
    let sent = subscriber_stream scope (calls_of hub 0 rows) r running small meets in
    elim (tick-Ended (registry_publisher hub) tx w) [
      | inr (e, failed, _, _) ↦ absurd (some_not_none (sym failed ∙ done))
      | inl (_, table, _, left) ↦ (
        table,
        rw
            (
              left ∙ accepted-ops hub 0 rows w.hub ∙ ap (ops (calls_of hub 0 rows)) joined,
              ← accepted-matching scope hub 0 rows w.hub quiet,
            )
            sent,
      )
    ]
