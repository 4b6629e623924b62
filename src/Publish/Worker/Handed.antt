-- ===== src/Publish/Worker/Handed.antt =====
-- A row is stamped only if the publisher was handed it and took it.
use watchkeepers.Prelude.{
  ℕ, suc, ◌+◌, ◌≡◌, ◌≢◌, refl, true, none, List, [], ◌∷◌, ◌++◌, Every, Every-append, Every-map,
  Option-cases, Bool-cases, inl, inr, number_eq, ◌==◌, if◌then◌else◌,
}
use watchkeepers.Go.Errors.{Result-cases}
use watchkeepers.Go.Uuid.{Uuid}
use watchkeepers.Publish.{Event}
use watchkeepers.Publish.Worker.{
  OutboxRow, row_to_event, Stored, Tx, Worker, Publisher, Turn, insert_turn, tick_turn, done_turn,
  has_id, select, stamp, scan_rows, read_batch, publish_rows, publish_batch, finish, tick,
  run_worker,
}
use watchkeepers.Publish.Worker.Batch.{accepted, ids_of}
use watchkeepers.Publish.Worker.Settled.{tick-Ended}

-- `Taken id p`: the publisher has taken an event with the id. A call that returns nil takes its event,
-- and what was taken stays taken.
pub record Keeps {P : Type 0} (Taken : Uuid → P → Type 0) (pub_event : Publisher P) : Type 0 where
  pub takes :
      (k : ℕ) (ev : Event) (p : P) → (pub_event k ev p).0 ≡ none → Taken ev.id (pub_event k ev p).1
  pub stays : (k : ℕ) (ev : Event) (id : Uuid) (p : P) → Taken id p → Taken id (pub_event k ev p).1

module _ {P : Type 0} (Taken : Uuid → P → Type 0) where
  -- Every row that is stamped was taken.
  abbrev StampTaken : P → Stored → Type 0
  StampTaken p s = s.published_at ≢ none → Taken s.row.id p

  abbrev pub IsHanded : Worker P → Type 0
  IsHanded w = Every (StampTaken w.hub) w.table

  -- The publishers of the turns.
  abbrev pub AllKeep : List (Turn P) → Type 0
  AllKeep [] = Unit
  AllKeep (insert_turn row ∷ ts) = AllKeep ts
  AllKeep (tick_turn pub_event tx ∷ ts) = Keeps Taken pub_event × AllKeep ts
  AllKeep (done_turn ∷ ts) = AllKeep ts

  module _ (pub_event : Publisher P) (keeps : Keeps Taken pub_event) where
    publish_rows-stays :
        (tx : Tx) (k : ℕ) (rows : List OutboxRow) (staged : List Uuid) (n : ℕ) (w : Worker P)
        (id : Uuid)
        → Taken id w.hub
        → Taken id (publish_rows pub_event tx k rows staged n w).1.hub
    unfolding publish_rows
    publish_rows-stays tx k [] staged n w id h = h
    publish_rows-stays tx k (row ∷ rows) staged n w id h =
        let h₁ = keeps.stays k (row_to_event row) id w.hub h in
        elim (Option-cases (pub_event k (row_to_event row) w.hub).0) [
          | inr (e, x) ↦ rw (x, publish_rows) (publish_rows-stays tx (suc k) rows staged n _ id h₁)
          | inl x ↦ elim (Option-cases (tx.exec k)) [
            | inr (e, y) ↦ rw (x, publish_rows) (rw (y, publish_rows) h₁)
            | inl y ↦
                rw (x, publish_rows)
                  (rw (y, publish_rows)
                    (publish_rows-stays tx (suc k) rows (staged ++ row.id ∷ []) (n + 1) _ id h₁))
          ]
        ]

    finish-hub :
        (tx : Tx) (staged : List Uuid) (n : ℕ) (w : Worker P) → (finish tx staged n w).1.hub ≡ w.hub
    unfolding finish
    finish-hub tx staged n w = elim (Option-cases tx.commit) [
      | inl h ↦ rw (h, finish) refl
      | inr (e, h) ↦ rw (h, finish) refl
    ]

    tick-stays :
        (tx : Tx) (w : Worker P) (id : Uuid) → Taken id w.hub → Taken id (tick pub_event tx w).1.hub
    unfolding tick publish_batch
    tick-stays tx w id h =
        elim (Result-cases
          (read_batch tx.begin tx.query (scan_rows tx 0 (select tx w.table) []) tx.rows_err)) [
            | inl (e, r) ↦ rw (r, tick) h
            | inr (batch, r) ↦
                let h₁ = publish_rows-stays tx 0 batch [] 0 w id h in
                elim (Result-cases (publish_rows pub_event tx 0 batch [] 0 w).0) [
                  | inl (e, q) ↦ rw (r, tick) (rw (q, publish_batch) h₁)
                  | inr (m, q) ↦ rw (r, tick) (rw (q, publish_batch) (rw finish-hub h₁))
                ]
          ]

    accepted-stays :
        (k : ℕ) (rows : List OutboxRow) (p : P) (id : Uuid)
        → Taken id p
        → Taken id (accepted pub_event k rows p).1
    unfolding accepted
    accepted-stays k [] p id h = h
    accepted-stays k (row ∷ rows) p id h =
        accepted-stays (suc k) rows _ id (keeps.stays k (row_to_event row) id p h)

    accepted_taken :
        (k : ℕ) (rows : List OutboxRow) (p : P)
        → let (taken, q) = accepted pub_event k rows p in
          (id : Uuid) → has_id id (ids_of taken) ≡ true → Taken id q
    unfolding accepted
    accepted_taken k [] p id h = absurd cc
    accepted_taken k (row ∷ rows) p id h =
        elim (Option-cases (pub_event k (row_to_event row) p).0) [
          | inr (e, x) ↦
              let later : has_id id (
                    ids_of (accepted pub_event (suc k) rows (pub_event k (row_to_event row) p).1).0)
                  ≡ true =
                rw (x, accepted) at h in
              accepted_taken (suc k) rows _ id later
          | inl x ↦ elim (Bool-cases (id == row.id)) [
            | inl e ↦
                rw ((number_eq.same_iff id row.id).0 e)
                  (accepted-stays (suc k) rows _ row.id (keeps.takes k (row_to_event row) p x))
            | inr e ↦
                let here : (if id == row.id
                      then true
                      else has_id id (
                          ids_of
                            (accepted pub_event (suc k) rows
                              (pub_event k (row_to_event row) p).1).0))
                    ≡ true =
                  rw (x, accepted) at h in
                accepted_taken (suc k) rows _ id (rw e at here)
          ]
        ]

    stamp-Every :
        (now : ℕ) (ids : List Uuid) (p q : P) (table : List Stored)
        → ((id : Uuid) → Taken id p → Taken id q)
        → ((id : Uuid) → has_id id ids ≡ true → Taken id q)
        → Every (StampTaken p) table
        → Every (StampTaken q) (stamp now ids table)
    unfolding stamp
    stamp-Every now ids p q [] f g h = tt
    stamp-Every now ids p q (s ∷ ss) f g (rest, h) = (
      stamp-Every now ids p q ss f g rest,
      elim (Bool-cases (has_id s.row.id ids)) [
        | inl e ↦ rw e (λ _. g s.row.id e)
        | inr e ↦ rw e (λ n. f s.row.id (h n))
      ],
    )

    tick-IsHanded : (tx : Tx) (w : Worker P) → IsHanded w → IsHanded (tick pub_event tx w).1
    tick-IsHanded tx w h = elim (tick-Ended pub_event tx w) [
      | inl (_, table, _, hub) ↦
          rw (table, hub)
            (stamp-Every tx.now (ids_of (accepted pub_event 0 (select tx w.table) w.hub).0) w.hub _
              w.table (λ id. accepted-stays 0 (select tx w.table) w.hub id)
              (accepted_taken 0 (select tx w.table) w.hub) h)
      | inr (e, _, table, _) ↦ rw table (
          Every-map (StampTaken w.hub) (StampTaken (tick pub_event tx w).1.hub) w.table
            (λ s f n. tick-stays tx w s.row.id (f n)) h)
    ]

  -- When every publisher of a run takes the event for which it returns nil, and keeps what it took, a
  -- row is stamped after the run, whatever the database answered in it, only if an event with the
  -- row's id was taken, if that was so before the run.
  pub run_worker-IsHanded :
      (ts : List (Turn P)) (w : Worker P) → AllKeep ts → IsHanded w → IsHanded (run_worker ts w).1
  unfolding run_worker
  run_worker-IsHanded [] w k h = h
  run_worker-IsHanded (insert_turn row ∷ ts) w k h =
      run_worker-IsHanded ts _ k
        (Every-append (StampTaken w.hub) w.table _ h (tt, λ n. absurd (n refl)))
  run_worker-IsHanded (done_turn ∷ ts) w k h = h
  run_worker-IsHanded (tick_turn pub_event tx ∷ ts) w (k, ks) h =
      let h₁ = tick-IsHanded pub_event k tx w h in
      elim (Option-cases (tick pub_event tx w).0) [
        | inl x ↦ rw (x, run_worker) (run_worker-IsHanded ts _ ks h₁)
        | inr (e, x) ↦ rw (x, run_worker) (run_worker-IsHanded ts _ ks h₁)
      ]
