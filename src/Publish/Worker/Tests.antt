-- ===== src/Publish/Worker/Tests.antt =====
-- Ticks of the outbox worker over two rows, and the theorems at them.
use watchkeepers.Prelude.{
  ℕ, ◌≡◌, refl, String, true, false, none, some, List, [], ◌∷◌, arith, ◌==◌, number_eq, string_eq,
  if◌then◌else◌,
}
use watchkeepers.Go.Errors.{text}
use watchkeepers.Go.Uuid.{Uuid}
use watchkeepers.Publish.{Registry, new_registry, subscribe}
use watchkeepers.Publish.Stream.{Streamed}
use watchkeepers.Publish.Worker.{
  OutboxRow, row_to_event, Stored, Tx, Worker, Publisher, Turn, insert_turn, tick_turn, done_turn,
  has_id, select, stamp, tick, run_worker,
}
use watchkeepers.Publish.Worker.Batch.{accepted}
use watchkeepers.Publish.Worker.Handed.{Keeps, IsHanded, run_worker-IsHanded}
use watchkeepers.Publish.Worker.Streams.{Hub, registry_publisher, tick-Streamed}

abbrev row_of : Uuid → String → ℕ → OutboxRow
row_of id scope created_at = record {
  id = id;
  aggregate_type = "watchkeeper";
  aggregate_id = 9;
  event_type = "created";
  payload = [];
  scope = scope;
  created_at = created_at;
}

abbrev later : OutboxRow
later = row_of 2 "org" 20

abbrev earlier : OutboxRow
earlier = row_of 1 "org" 10

abbrev elsewhere : OutboxRow
elsewhere = row_of 3 "user:5" 15

abbrev unpublished : OutboxRow → Stored
unpublished row = record { row = row; published_at = none }

abbrev all_well : Tx
all_well = record {
  begin = none;
  query = none;
  locked = λ r. false;
  scan = λ k. none;
  rows_err = none;
  exec = λ k. none;
  commit = none;
  now = 99;
}

abbrev worker_over : (P : Type 0) → P → Worker P
worker_over P p = record {
  table = unpublished later ∷ unpublished earlier ∷ unpublished elsewhere ∷ [];
  hub = p;
  logged = [];
  successes = 0;
  errors = 0;
}

-- A publisher that refuses the second call of a tick.
abbrev recorder : Publisher (List Uuid)
recorder k ev p = if k == 1 then (some (text "context canceled"), p) else (none, ev.id ∷ p)

abbrev Taken : Uuid → List Uuid → Type 0
Taken id p = has_id id p ≡ true

recorder-Keeps : Keeps Taken recorder
recorder-Keeps = record {
  takes = λ k ev p h. ground (arith, number_eq.same_iff ev.id ev.id);
  stays = λ k ev id p h. ground arith;
}

abbrev recording : Worker (List Uuid)
recording = worker_over (List Uuid) []

oldest_first : select all_well recording.table ≡ earlier ∷ elsewhere ∷ later ∷ []
unfolding select
oldest_first = refl

refused_stays :
    (tick recorder all_well recording).1.table
    ≡ record { row = later; published_at = some 99 }
      ∷ record { row = earlier; published_at = some 99 }
      ∷ unpublished elsewhere
      ∷ []
unfolding tick select stamp
refused_stays = refl

abbrev turns : List (Turn (List Uuid))
turns =
    tick_turn recorder (record all_well { commit = some (text "conn closed") })
    ∷ insert_turn (row_of 4 "org" 30)
    ∷ tick_turn recorder all_well
    ∷ done_turn
    ∷ []

run_worker-IsHanded_example : IsHanded Taken (run_worker turns recording).1
run_worker-IsHanded_example =
    run_worker-IsHanded Taken turns recording (recorder-Keeps, (recorder-Keeps, tt))
      (((tt, λ n. absurd (n refl)), λ n. absurd (n refl)), λ n. absurd (n refl))

abbrev hub : Hub
hub = record { ctx_err = λ k. none; order = λ k. 0 ∷ []; between = λ k. [] }

abbrev registry : Registry
unfolding new_registry
registry = new_registry 8

abbrev streaming_worker : Worker Registry
unfolding subscribe
streaming_worker = worker_over Registry (subscribe "org" registry).1

tick-Streamed_example :
    let left = (tick (registry_publisher hub) all_well streaming_worker).1 in
    (left.table
      ≡ record { row = later; published_at = some 99 }
        ∷ record { row = earlier; published_at = some 99 }
        ∷ record { row = elsewhere; published_at = some 99 }
        ∷ [])
    × Streamed 0 "org" [] (row_to_event earlier ∷ row_to_event later ∷ []) left.hub
unfolding registry streaming_worker new_registry subscribe tick select stamp accepted
    registry_publisher
tick-Streamed_example =
    tick-Streamed "org" hub all_well streaming_worker registry refl refl (omega arith)
      (refl, (refl, (refl, tt))) (λ k. refl) refl
