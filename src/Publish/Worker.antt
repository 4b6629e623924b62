-- ===== src/Publish/Worker.antt =====
-- core/internal/keep/publish/outbox.go: the worker that hands the rows of the outbox table to the hub.
-- `P` is the publisher's state, and `pub k` is what its k-th call of a tick does. The database answers
-- through `Tx`; a transaction's updates are there after its commit and not after its rollback. Rows
-- that others insert while a tick runs are not seen by its query: they come with a turn of their own.
pub mod Batch
pub mod Settled
pub mod Handed
pub mod Streams
mod Tests
use watchkeepers.Prelude.{
  ℕ, zero, suc, ◌+◌, String, Bytes, Bool, true, false, not, ◌&&◌, Option, none, some, List, [], ◌∷◌,
  ◌++◌, map, leb, if◌then◌else◌, ◌==◌, number_eq,
}
use watchkeepers.Go.Errors.{Error, Result, ok, err}
use watchkeepers.Go.Uuid.{Uuid}
use watchkeepers.Publish.{Event}

pub record OutboxRow : Type 0 where
  pub id : Uuid
  pub aggregate_type : String
  pub aggregate_id : Uuid
  pub event_type : String
  pub payload : Bytes
  pub scope : String
  pub created_at : ℕ

abbrev pub row_to_event : OutboxRow → Event
row_to_event row = record {
  id = row.id;
  scope = row.scope;
  aggregate_type = row.aggregate_type;
  aggregate_id = row.aggregate_id;
  event_type = row.event_type;
  payload = row.payload;
  created_at = row.created_at;
}

-- A row of the table, with `published_at`.
pub record Stored : Type 0 where
  pub row : OutboxRow
  pub published_at : Option ℕ

-- What the database answers in one tick: to the n-th `Scan`, and to the stamp of the n-th row; and
-- which rows another transaction has locked.
pub record Tx : Type 0 where
  pub begin : Option Error
  pub query : Option Error
  pub locked : OutboxRow → Bool
  pub scan : ℕ → Option Error
  pub rows_err : Option Error
  pub exec : ℕ → Option Error
  pub commit : Option Error
  pub now : ℕ

-- `logged` has the message and the error of each line, and the counters are those of
-- `RecordOutboxPublished`.
pub record Worker (P : Type 0) : Type 0 where
  pub table : List Stored
  pub hub : P
  pub logged : List (String × Error)
  pub successes : ℕ
  pub errors : ℕ

abbrev pub Publisher : Type 0 → Type 0
Publisher P = ℕ → Event → P → Option Error × P

pub insert_by_created : OutboxRow → List OutboxRow → List OutboxRow
insert_by_created row [] = row ∷ []
insert_by_created row (r ∷ rs) =
    let later = insert_by_created row rs in
    if leb row.created_at r.created_at then row ∷ r ∷ rs else r ∷ later

abbrev pub is_unpublished : Stored → Bool
is_unpublished s = elim s.published_at [ none ↦ true | some _ ↦ false ]

-- The query: what is unpublished and not locked, oldest first.
unfoldable pub select : Tx → List Stored → List OutboxRow
unfolding insert_by_created
select tx [] = []
select tx (s ∷ ss) =
    let rest = select tx ss in
    if is_unpublished s && not (tx.locked s.row) then insert_by_created s.row rest else rest

-- The loop over `rows.Next`.
pub scan_rows : Tx → ℕ → List OutboxRow → List OutboxRow → Result (List OutboxRow)
scan_rows tx k [] batch = ok batch
scan_rows tx k (r ∷ rs) batch = elim (tx.scan k) [
  | some e ↦ err e
  | none ↦ scan_rows tx (suc k) rs (batch ++ r ∷ [])
]

-- The first error of the transaction's start, the query, the scans and the rows, or the batch.
pub read_batch :
    Option Error → Option Error → Result (List OutboxRow) → Option Error → Result (List OutboxRow)
read_batch (some e) query scanned rows_err = err e
read_batch none (some e) scanned rows_err = err e
read_batch none none (err e) rows_err = err e
read_batch none none (ok batch) (some e) = err e
read_batch none none (ok batch) none = ok batch

abbrev pub has_id : Uuid → List Uuid → Bool
has_id id [] = false
has_id id (x ∷ xs) = let rest = has_id id xs in if id == x then true else rest

-- The effect of the updates at the commit.
unfoldable pub stamp : ℕ → List Uuid → List Stored → List Stored
stamp now ids [] = []
stamp now ids (s ∷ ss) =
    (if has_id s.row.id ids then record s { published_at = some now } else s) ∷ stamp now ids ss

module _ {P : Type 0} where
  abbrev pub log_error : String → Error → Worker P → Worker P
  log_error msg e w = record w { logged = w.logged ++ (msg, e) ∷ [] }

  abbrev pub record_error : Worker P → Worker P
  record_error w = record w { errors = w.errors + 1 }

  -- The loop over the batch: the ids that are stamped so far, and their number.
  pub publish_rows :
      Publisher P
      → Tx
      → ℕ
      → List OutboxRow
      → List Uuid
      → ℕ
      → Worker P
      → Result (List Uuid × ℕ) × Worker P
  publish_rows pub_event tx k [] staged n w = (ok (staged, n), w)
  publish_rows pub_event tx k (row ∷ rows) staged n w =
      let (failure, hub) = pub_event k (row_to_event row) w.hub in
      let w₁ = record w { hub = hub } in
      elim failure [
        | some e ↦
            publish_rows pub_event tx (suc k) rows staged n
              (record_error (log_error "outbox worker publish failed" e w₁))
        | none ↦ elim (tx.exec k) [
          | some e ↦ (err e, w₁)
          | none ↦ publish_rows pub_event tx (suc k) rows (staged ++ row.id ∷ []) (n + 1) w₁
        ]
      ]

  -- The end of a tick, with the deferred rollback on every error.
  pub finish : Tx → List Uuid → ℕ → Worker P → Option Error × Worker P
  unfolding stamp
  finish tx staged n w = elim tx.commit [
    | some e ↦ (some e, record_error (log_error "outbox worker commit failed" e w))
    | none ↦ (none, record w { table = stamp tx.now staged w.table; successes = w.successes + n })
  ]

  pub publish_batch : Publisher P → Tx → List OutboxRow → Worker P → Option Error × Worker P
  unfolding publish_rows finish
  publish_batch pub_event tx batch w =
      let (result, w₁) = publish_rows pub_event tx 0 batch [] 0 w in
      elim result [ err e ↦ (some e, w₁) | ok (staged, n) ↦ finish tx staged n w₁ ]

  unfoldable pub tick : Publisher P → Tx → Worker P → Option Error × Worker P
  unfolding select scan_rows publish_batch read_batch
  tick pub_event tx w =
      elim (read_batch tx.begin tx.query (scan_rows tx 0 (select tx w.table) []) tx.rows_err) [
        | err e ↦ (some e, w)
        | ok batch ↦ publish_batch pub_event tx batch w
      ]

-- What happens to a running worker: a row is inserted, the ticker fires, or the context is done.
pub data Turn (P : Type 0) : Type 0 where
  insert_turn : OutboxRow → Turn P
  tick_turn : Publisher P → Tx → Turn P
  done_turn : Turn P

-- Whether `Run` has returned, and the worker.
unfoldable pub run_worker : {P : Type 0} → List (Turn P) → Worker P → Bool × Worker P
unfolding tick
run_worker [] w = (false, w)
run_worker (insert_turn row ∷ ts) w =
    run_worker ts (record w { table = w.table ++ record { row = row; published_at = none } ∷ [] })
run_worker (done_turn ∷ ts) w = (true, w)
run_worker (tick_turn pub_event tx ∷ ts) w =
    let (failure, w₁) = tick pub_event tx w in
    elim failure [
      | none ↦ run_worker ts w₁
      | some e ↦ run_worker ts (log_error "outbox worker tick error" e w₁)
    ]
