-- ===== src/Saga/Store/Insertion.antt =====
-- What an insertion with a key in the in-memory store says of its arguments and of the row, and what
-- a row that is read there is.
use watchkeepers.Prelude.{String, ◌≡◌, false, some, arith, ◌==◌, number_eq, string_eq}
use watchkeepers.Go.Errors.{ok}
use watchkeepers.Go.Text.{is_blank}
use watchkeepers.Saga.{Uuid, nil_uuid, Saga}
use watchkeepers.Saga.Store.{MemorySpawnSagaDao, insert_if_absent, inserted_as, get, fresh_row}

-- What an insertion says of its arguments and of the row.
pub record Inserted (id manifest keeper : Uuid) (key : String) (m : MemorySpawnSagaDao) (row : Saga)
    : Type 0 where
  pub some_id : (id == nil_uuid) ≡ false
  pub some_manifest : (manifest == nil_uuid) ≡ false
  pub some_keeper : (keeper == nil_uuid) ≡ false
  pub some_key : is_blank key ≡ false
  pub same_id : row.id ≡ id
  pub same_manifest : row.manifest_version_id ≡ manifest
  pub same_keeper : row.watchkeeper_id ≡ keeper
  pub there : get row.id (insert_if_absent id manifest keeper key m).1 ≡ ok row

pub insert_if_absent-Inserted :
    (id manifest keeper : Uuid) (key : String) (m : MemorySpawnSagaDao) (row : Saga)
    → (insert_if_absent id manifest keeper key m).0 ≡ ok (inserted_as row)
    → Inserted id manifest keeper key m row
unfolding insert_if_absent fresh_row get
insert_if_absent-Inserted id manifest keeper key m row h = record {
  some_id = ground arith;
  some_manifest = ground arith;
  some_keeper = ground arith;
  some_key = ground arith;
  same_id = ground arith;
  same_manifest = ground arith;
  same_keeper = ground arith;
  there = ground arith;
}

-- The row that `Get` returns is the one stored.
pub held_row :
    (id : Uuid) (m : MemorySpawnSagaDao) (last held : Saga)
    → get id m ≡ ok last
    → m.rows id ≡ some held
    → held ≡ last
unfolding get
held_row id m last held e h = ground arith
