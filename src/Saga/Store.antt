-- ===== src/Saga/Store.antt =====
-- core/pkg/spawn/saga/dao_memory.go: the in-memory store. Each method holds the store's lock for
-- its whole body, so it is one step.
pub mod Contract
pub mod Claims
pub mod Insertion
use watchkeepers.Prelude.{
  ℕ, suc, String, Option, none, some, Map, empty_map, put, true, false, if◌then◌else◌, ◌==◌,
  number_eq, string_eq,
}
use watchkeepers.Go.Errors.{Error, sentinel, text, wrap, Result, ok, err}
use watchkeepers.Go.Text.{is_blank}
use watchkeepers.Saga.{
  Uuid, nil_uuid, Time, pending, in_flight, completed, failed, Saga, IdempotentInsertResult,
  SpawnSagaDao, err_saga_not_found, err_empty_idempotency_key, err_idempotency_index_inconsistent,
}

-- `now` gives the n-th reading of the clock, and `reads` counts the readings.
pub record MemorySpawnSagaDao : Type 0 where
  pub rows : Map Uuid Saga
  pub idempotency : Map String Uuid
  pub now : ℕ → Time
  pub reads : ℕ

unfoldable pub new_memory_dao : (ℕ → Time) → MemorySpawnSagaDao
new_memory_dao now = record { rows = empty_map; idempotency = empty_map; now = now; reads = 0 }

-- `m.now().UTC()`, then a write of a row.
abbrev tick : MemorySpawnSagaDao → MemorySpawnSagaDao
tick m = record m { reads = suc m.reads }

abbrev pub stamp : MemorySpawnSagaDao → Time
stamp m = m.now m.reads

abbrev write_row : Uuid → Saga → MemorySpawnSagaDao → MemorySpawnSagaDao
write_row id row m = record (tick m) { rows = put id row m.rows }

unfoldable pub fresh_row : Uuid → Uuid → Uuid → String → Time → Saga
fresh_row id manifest watchkeeper key now = record {
  id = id;
  manifest_version_id = manifest;
  status = pending;
  current_step = "";
  last_error = "";
  created_at = now;
  updated_at = now;
  completed_at = 0;
  idempotency_key = key;
  watchkeeper_id = watchkeeper;
}

insert_row : Option Saga → Uuid → Uuid → MemorySpawnSagaDao → Option Error × MemorySpawnSagaDao
unfolding fresh_row
insert_row (some _) id manifest m = (some (text "saga: insert: duplicate id %q"), m)
insert_row none id manifest m = (none, write_row id (fresh_row id manifest nil_uuid "" (stamp m)) m)

unfoldable pub insert : Uuid → Uuid → MemorySpawnSagaDao → Option Error × MemorySpawnSagaDao
unfolding insert_row
insert id manifest m =
    if id == nil_uuid
    then (some (text "saga: insert: empty id"), m)
    else if manifest == nil_uuid
    then (some (text "saga: insert: empty manifest_version_id"), m)
    else insert_row (m.rows id) id manifest m

abbrev pub inserted_as : Saga → IdempotentInsertResult
inserted_as row = record { inserted = true; existing = row }

abbrev pub replay_of : Saga → IdempotentInsertResult
replay_of row = record { inserted = false; existing = row }

-- The key is taken: the row that holds it, if the index is sound.
replay : Option Saga → MemorySpawnSagaDao → Result IdempotentInsertResult × MemorySpawnSagaDao
replay none m = (err (wrap "%w: %q" (sentinel err_idempotency_index_inconsistent)), m)
replay (some row) m = (ok (replay_of row), m)

-- The key is free: a new row, if the id is free too.
claim : Option Saga → Saga → MemorySpawnSagaDao → Result IdempotentInsertResult × MemorySpawnSagaDao
claim (some _) row m = (err (text "saga: insert if absent: duplicate id %q"), m)
claim none row m = (
  ok (inserted_as row),
  record (write_row row.id row m) { idempotency = put row.idempotency_key row.id m.idempotency },
)

lookup_key :
    Option Uuid → Saga → MemorySpawnSagaDao → Result IdempotentInsertResult × MemorySpawnSagaDao
unfolding replay claim
lookup_key (some existing) row m = replay (m.rows existing) m
lookup_key none row m = claim (m.rows row.id) row m

unfoldable pub insert_if_absent :
    Uuid
    → Uuid
    → Uuid
    → String
    → MemorySpawnSagaDao
    → Result IdempotentInsertResult × MemorySpawnSagaDao
unfolding lookup_key fresh_row
insert_if_absent id manifest watchkeeper key m =
    if is_blank key
    then (err (sentinel err_empty_idempotency_key), m)
    else if id == nil_uuid
    then (err (text "saga: insert if absent: empty id"), m)
    else if manifest == nil_uuid
    then (err (text "saga: insert if absent: empty manifest_version_id"), m)
    else if watchkeeper == nil_uuid
    then (err (text "saga: insert if absent: empty watchkeeper_id"), m)
    else lookup_key (m.idempotency key) (fresh_row id manifest watchkeeper key (stamp m)) m

found : Option Saga → Result Saga
found none = err (sentinel err_saga_not_found)
found (some row) = ok row

unfoldable pub get : Uuid → MemorySpawnSagaDao → Result Saga
unfolding found
get id m = found (m.rows id)

-- Read the row, change it, write it back.
change_row :
    Option Saga → Uuid → (Saga → Saga) → MemorySpawnSagaDao → Option Error × MemorySpawnSagaDao
change_row none id change m = (some (sentinel err_saga_not_found), m)
change_row (some row) id change m = (none, write_row id (change row) m)

unfoldable pub update_step : Uuid → String → MemorySpawnSagaDao → Option Error × MemorySpawnSagaDao
unfolding change_row
update_step id step m =
    change_row (m.rows id) id
      (λ row. record row { status = in_flight; current_step = step; updated_at = stamp m }) m

unfoldable pub mark_completed : Uuid → MemorySpawnSagaDao → Option Error × MemorySpawnSagaDao
unfolding change_row
mark_completed id m =
    change_row (m.rows id) id
      (λ row. record row { status = completed; updated_at = stamp m; completed_at = stamp m }) m

unfoldable pub mark_failed : Uuid → String → MemorySpawnSagaDao → Option Error × MemorySpawnSagaDao
unfolding change_row
mark_failed id last_err m =
    change_row (m.rows id) id
      (λ row. record row {
        status = failed;
        last_error = last_err;
        updated_at = stamp m;
        completed_at = stamp m;
      })
      m

-- `MemorySpawnSagaDAO` satisfies `SpawnSagaDAO`.
abbrev pub memory_dao : SpawnSagaDao MemorySpawnSagaDao
memory_dao = record {
  insert = insert;
  insert_if_absent = insert_if_absent;
  get = get;
  update_step = update_step;
  mark_completed = mark_completed;
  mark_failed = mark_failed;
}
