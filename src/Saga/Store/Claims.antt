-- ===== src/Saga/Store/Claims.antt =====
-- An idempotency key of the in-memory store is claimed once: the row that claimed it keeps it, and
-- what identifies the row, through every later call.
use watchkeepers.Prelude.{
  String, ◌≡◌, ◌≢◌, refl, some, List, [], ◌∷◌, false, eq_iff, arith, number_eq, ◌==◌, Bool-cases,
  inl, inr, ◌∙◌,
}
use watchkeepers.Go.Errors.{ok}
use watchkeepers.Go.Text.{is_blank}
use watchkeepers.Saga.{Uuid, nil_uuid, Saga}
use watchkeepers.Saga.Store.{
  MemorySpawnSagaDao, insert, insert_if_absent, update_step, mark_completed, mark_failed,
  inserted_as, replay_of, change_row,
}

-- A call of one of the writing methods.
pub data Call : Type 0 where
  insert_call : Uuid → Uuid → Call
  insert_if_absent_call : Uuid → Uuid → Uuid → String → Call
  update_step_call : Uuid → String → Call
  mark_completed_call : Uuid → Call
  mark_failed_call : Uuid → String → Call

-- The store after a call, whatever it returned.
unfoldable pub call : MemorySpawnSagaDao → Call → MemorySpawnSagaDao
unfolding insert insert_if_absent update_step mark_completed mark_failed
call m (insert_call id manifest) = (insert id manifest m).1
call m (insert_if_absent_call id manifest keeper key) =
    (insert_if_absent id manifest keeper key m).1
call m (update_step_call id step) = (update_step id step m).1
call m (mark_completed_call id) = (mark_completed id m).1
call m (mark_failed_call id last_err) = (mark_failed id last_err m).1

unfoldable pub calls : MemorySpawnSagaDao → List Call → MemorySpawnSagaDao
calls m [] = m
calls m (c ∷ cs) = calls (call m c) cs

-- `row` has claimed `key`: the index leads to a row with the same identity.
pub record Claims (key : String) (row : Saga) (m : MemorySpawnSagaDao) : Type 0 where
  pub indexed : m.idempotency key ≡ some row.id
  pub held : Saga
  pub stored : m.rows row.id ≡ some held
  pub same_id : held.id ≡ row.id
  pub same_key : held.idempotency_key ≡ key
  pub same_manifest : held.manifest_version_id ≡ row.manifest_version_id
  pub same_watchkeeper : held.watchkeeper_id ≡ row.watchkeeper_id

-- The claim stands in a store that has the same entry and the same row.
stands :
    {key : String} {row : Saga} {m : MemorySpawnSagaDao} (n : MemorySpawnSagaDao)
    (h : Claims key row m)
    → n.idempotency key ≡ some row.id
    → n.rows row.id ≡ some h.held
    → Claims key row n
stands n h indexed stored = record {
  indexed = indexed;
  held = h.held;
  stored = stored;
  same_id = h.same_id;
  same_key = h.same_key;
  same_manifest = h.same_manifest;
  same_watchkeeper = h.same_watchkeeper;
}

-- A change of a row that keeps what identifies it.
abbrev KeepsIdentity : (Saga → Saga) → Type 0
KeepsIdentity change =
    (r : Saga)
    → ((change r).id ≡ r.id)
      × ((change r).idempotency_key ≡ r.idempotency_key)
      × ((change r).manifest_version_id ≡ r.manifest_version_id)
      × ((change r).watchkeeper_id ≡ r.watchkeeper_id)

module _ (key : String) (row : Saga) (m : MemorySpawnSagaDao) where
  change_row-Claims :
      (id : Uuid) (change : Saga → Saga)
      → KeepsIdentity change
      → Claims key row m
      → Claims key row (change_row (m.rows id) id change m).1
  unfolding change_row
  change_row-Claims id change keeps h = elim (Bool-cases (id == row.id)) [
    | inl e ↦
        let (k0, k1, k2, k3) = keeps h.held in
        record {
          indexed = ground (arith, h.indexed);
          held = change h.held;
          stored = ground (arith, h.stored);
          same_id = k0 ∙ h.same_id;
          same_key = k1 ∙ h.same_key;
          same_manifest = k2 ∙ h.same_manifest;
          same_watchkeeper = k3 ∙ h.same_watchkeeper;
        }
    | inr e ↦ stands _ h (ground (arith, h.indexed)) (ground (arith, h.stored))
  ]

  insert-Claims : (id manifest : Uuid) → Claims key row m → Claims key row (insert id manifest m).1
  unfolding insert
  insert-Claims id manifest h = stands _ h (ground (arith, h.indexed)) (ground (arith, h.stored))

  insert_if_absent-Claims :
      (id manifest keeper : Uuid) (key' : String)
      → Claims key row m
      → Claims key row (insert_if_absent id manifest keeper key' m).1
  unfolding insert_if_absent
  insert_if_absent-Claims id manifest keeper key' h =
      stands _ h (ground (arith, h.indexed, eq_iff key' key)) (ground (arith, h.stored))

  call-Claims : (c : Call) → Claims key row m → Claims key row (call m c)
  unfolding call
  call-Claims (insert_call id manifest) h = insert-Claims id manifest h
  call-Claims (insert_if_absent_call id manifest keeper key') h =
      insert_if_absent-Claims id manifest keeper key' h
  call-Claims (update_step_call id step) h =
      change_row-Claims id _ (λ r. (refl, refl, refl, refl)) h
  call-Claims (mark_completed_call id) h = change_row-Claims id _ (λ r. (refl, refl, refl, refl)) h
  call-Claims (mark_failed_call id last_err) h =
      change_row-Claims id _ (λ r. (refl, refl, refl, refl)) h

calls-Claims :
    (key : String) (row : Saga) (m : MemorySpawnSagaDao) (cs : List Call)
    → Claims key row m
    → Claims key row (calls m cs)
unfolding calls
calls-Claims key row m [] h = h
calls-Claims key row m (c ∷ cs) h = calls-Claims key row (call m c) cs (call-Claims key row m c h)

-- The first call with a key claims it.
claim_lem :
    (id manifest keeper : Uuid) (key : String) (m : MemorySpawnSagaDao) (row : Saga)
    → (insert_if_absent id manifest keeper key m).0 ≡ ok (inserted_as row)
    → Claims key row (insert_if_absent id manifest keeper key m).1
unfolding insert_if_absent
claim_lem id manifest keeper key m row h = record {
  indexed = ground (arith, eq_iff key key);
  held = row;
  stored = ground arith;
  same_id = refl;
  same_key = ground arith;
  same_manifest = refl;
  same_watchkeeper = refl;
}

replay_lem :
    (id manifest keeper : Uuid) (key : String) (m : MemorySpawnSagaDao) (row : Saga)
    → is_blank key ≡ false
    → id ≢ nil_uuid
    → manifest ≢ nil_uuid
    → keeper ≢ nil_uuid
    → (h : Claims key row m)
    → insert_if_absent id manifest keeper key m ≡ (ok (replay_of h.held), m)
unfolding insert_if_absent
replay_lem id manifest keeper key m row b n0 n1 n2 h = ground (arith, h.indexed, h.stored)

is_blank_of_claim :
    (id manifest keeper : Uuid) (key : String) (m : MemorySpawnSagaDao) (row : Saga)
    → (insert_if_absent id manifest keeper key m).0 ≡ ok (inserted_as row)
    → is_blank key ≡ false
unfolding insert_if_absent
is_blank_of_claim id manifest keeper key m row h = ground arith

-- Once `InsertIfAbsent` has inserted a row under a key, then after any further calls of the store's
-- methods every valid `InsertIfAbsent` with that key inserts nothing, changes nothing, and returns
-- the row stored under the first call's id, with the first call's manifest version and watchkeeper.
pub key_claimed_once :
    (id manifest keeper : Uuid) (key : String) (m : MemorySpawnSagaDao) (row : Saga)
    → (insert_if_absent id manifest keeper key m).0 ≡ ok (inserted_as row)
    → (cs : List Call) (id' manifest' keeper' : Uuid) → id' ≢ nil_uuid
    → manifest' ≢ nil_uuid
    → keeper' ≢ nil_uuid
    → let n = calls (insert_if_absent id manifest keeper key m).1 cs in
      (held : Saga) × (insert_if_absent id' manifest' keeper' key n ≡ (ok (replay_of held), n))
      × (n.rows row.id ≡ some held)
      × (held.id ≡ row.id)
      × (held.manifest_version_id ≡ row.manifest_version_id)
      × (held.watchkeeper_id ≡ row.watchkeeper_id)
key_claimed_once id manifest keeper key m row first cs id' manifest' keeper' n₀ n₁ n₂ =
    let n = calls (insert_if_absent id manifest keeper key m).1 cs in
    let h = calls-Claims key row _ cs (claim_lem id manifest keeper key m row first) in
    let blank = is_blank_of_claim id manifest keeper key m row first in
    (
      h.held,
      replay_lem id' manifest' keeper' key n row blank n₀ n₁ n₂ h,
      h.stored,
      h.same_id,
      h.same_manifest,
      h.same_watchkeeper,
    )
