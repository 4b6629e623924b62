-- ===== src/Saga/Store/Contract.antt =====
-- The in-memory store keeps the promises of the interface that the runner relies on.
use watchkeepers.Prelude.{◌≡◌, refl, ap, none, some, put_self, arith, number_eq}
use watchkeepers.Go.Errors.{ok}
use watchkeepers.Saga.{Uuid, Saga, SpawnSagaDaoLaws}
use watchkeepers.Saga.Store.{
  MemorySpawnSagaDao, memory_dao, get, update_step, mark_completed, mark_failed, stamp, found,
  change_row,
}

-- A row that `get` returns is the row of the map.
get-eq-ok :
    (id : Uuid) (m : MemorySpawnSagaDao) (row : Saga) → get id m ≡ ok row → m.rows id ≡ some row
unfolding get
get-eq-ok id m row h = ground arith

change_row-found :
    (id : Uuid) (change : Saga → Saga) (m : MemorySpawnSagaDao) (row : Saga)
    → m.rows id ≡ some row
    → ((change_row (m.rows id) id change m).0 ≡ none)
      × (get id (change_row (m.rows id) id change m).1 ≡ ok (change row))
unfolding change_row get
change_row-found id change m row h = rw h (refl, ap found (put_self id (change row) m.rows))

-- The in-memory store implements the contract.
pub memory_dao_laws : SpawnSagaDaoLaws memory_dao
unfolding update_step mark_completed mark_failed
memory_dao_laws = record {
  updated = λ id step m row there.
      let (done, now) = change_row-found id _ m row (get-eq-ok id m row there) in
      (stamp m, done, now);
  finished = λ id m row there.
      let (done, now) = change_row-found id _ m row (get-eq-ok id m row there) in
      (stamp m, done, now);
  broken = λ id class m row there.
      let (done, now) = change_row-found id _ m row (get-eq-ok id m row there) in
      (stamp m, done, now);
}
