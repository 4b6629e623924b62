-- ===== src/Publish/Worker/Settled.antt =====
-- What a tick of the outbox worker leaves in the table.
use watchkeepers.Prelude.{
  ◌+◌, ◌≡◌, refl, ap, ◌∙◌, Option, none, some, List, [], length, Option-cases, inl, inr, ◌⊎◌, arith,
}
use watchkeepers.Go.Errors.{Error, Result, ok, err, Result-cases}
use watchkeepers.Publish.Worker.{
  OutboxRow, Tx, Worker, Publisher, select, stamp, scan_rows, publish_rows, publish_batch, finish,
  tick, read_batch,
}
use watchkeepers.Publish.Worker.Batch.{
  accepted, ids_of, broken, finished, publish_rows-table, publish_rows-Looped, scan_rows_lem,
}

read_batch_lem :
    (begin query : Option Error) (scanned : Result (List OutboxRow)) (rows_err : Option Error)
    (batch : List OutboxRow)
    → read_batch begin query scanned rows_err ≡ ok batch
    → scanned ≡ ok batch
unfolding read_batch
read_batch_lem (some e) query scanned rows_err batch h = absurd cc
read_batch_lem none (some e) scanned rows_err batch h = absurd cc
read_batch_lem none none (err e) rows_err batch h = absurd cc
read_batch_lem none none (ok b) (some e) batch h = absurd cc
read_batch_lem none none (ok b) none batch h = h

module _ {P : Type 0} (pub_event : Publisher P) (tx : Tx) (w : Worker P) where
  -- How a tick with a batch ends: with every accepted row stamped and counted, or with the table
  -- and the counter of successes as they were.
  abbrev pub Ended : List OutboxRow → Option Error × Worker P → Type 0
  Ended batch r =
      let (taken, p) = accepted pub_event 0 batch w.hub in
      (r.0 ≡ none)
        × (r.1.table ≡ stamp tx.now (ids_of taken) w.table)
        × (r.1.successes ≡ w.successes + length taken)
        × (r.1.hub ≡ p)
      ⊎ (e : Error) × (r.0 ≡ some e) × (r.1.table ≡ w.table) × (r.1.successes ≡ w.successes)

  finish-Ended :
      (batch : List OutboxRow) (w₁ : Worker P)
      → w₁.table ≡ w.table
      → w₁.successes ≡ w.successes
      → w₁.hub ≡ (accepted pub_event 0 batch w.hub).1
      → let taken = (accepted pub_event 0 batch w.hub).0 in
        Ended batch (finish tx (ids_of taken) (length taken) w₁)
  unfolding finish
  finish-Ended batch w₁ t s p = elim (Option-cases tx.commit) [
    | inl h ↦
        rw (h, finish)
          (inl (
            refl,
            ap (stamp tx.now _) t,
            ap (λ n. n + length (accepted pub_event 0 batch w.hub).0) s,
            p,
          ))
    | inr (e, h) ↦ rw (h, finish) (inr (e, refl, t, s))
  ]

  publish_batch-Ended : (batch : List OutboxRow) → Ended batch (publish_batch pub_event tx batch w)
  unfolding publish_batch
  publish_batch-Ended batch =
      let r = publish_rows pub_event tx 0 batch [] 0 w in
      let taken = (accepted pub_event 0 batch w.hub).0 in
      let (t, s) = publish_rows-table pub_event tx 0 batch [] 0 w in
      elim (publish_rows-Looped pub_event tx 0 batch [] 0 w) [
        | broken e h ↦ rw (h, publish_batch) (inr (e, refl, t, s))
        | finished h p ↦
            let all : r.0 ≡ ok (ids_of taken, length taken) =
              h ∙ ap (λ m. ok (ids_of taken, m)) (omega arith) in
            rw (all, publish_batch) (finish-Ended batch r.1 t s p)
      ]

  pub tick-Ended : Ended (select tx w.table) (tick pub_event tx w)
  unfolding tick
  tick-Ended =
      elim (Result-cases
        (read_batch tx.begin tx.query (scan_rows tx 0 (select tx w.table) []) tx.rows_err)) [
          | inl (e, h) ↦ rw (h, tick) (inr (e, refl, refl, refl))
          | inr (batch, h) ↦
              let scanned =
                read_batch_lem tx.begin tx.query (scan_rows tx 0 (select tx w.table) []) tx.rows_err
                  batch h in
              rw (h, tick)
                (rw (← scan_rows_lem pub_event tx 0 (select tx w.table) [] batch scanned)
                  (publish_batch-Ended batch))
        ]
