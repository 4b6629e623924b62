-- ===== src/Publish/Worker/Batch.antt =====
-- The loop over the batch in terms of what the publisher takes.
use watchkeepers.Prelude.{
  ℕ, suc, ◌+◌, ◌≡◌, refl, ap, ◌∙◌, Option, none, some, List, [], ◌∷◌, ◌++◌, map, length, append-nil,
  append_assoc, Option-cases, inl, inr, arith,
}
use watchkeepers.Go.Errors.{Error, Result, ok, err}
use watchkeepers.Go.Uuid.{Uuid}
use watchkeepers.Publish.Worker.{
  OutboxRow, row_to_event, Tx, Worker, Publisher, publish_rows, scan_rows,
}

-- The rows that the publisher takes and the publisher afterwards.
abbrev keep_taken : Option Error → OutboxRow → List OutboxRow → List OutboxRow
keep_taken none row taken = row ∷ taken
keep_taken (some _) row taken = taken

unfoldable pub accepted : {P : Type 0} → Publisher P → ℕ → List OutboxRow → P → List OutboxRow × P
accepted pub_event k [] p = ([], p)
accepted pub_event k (row ∷ rows) p =
    let (failure, p') = pub_event k (row_to_event row) p in
    let (taken, p'') = accepted pub_event (suc k) rows p' in (keep_taken failure row taken, p'')

abbrev pub ids_of : List OutboxRow → List Uuid
ids_of rows = map (λ r. r.id) rows

-- A stamp fails, or every row that the publisher takes is stamped.
pub data Looped {P : Type 0} (r : Result (List Uuid × ℕ)) (staged : List Uuid) (n : ℕ)
    (taken : List OutboxRow) (hub p : P) : Type 0 where
  broken : (e : Error) → r ≡ err e → Looped r staged n taken hub p
  finished :
      r ≡ ok (staged ++ ids_of taken, n + length taken) → hub ≡ p → Looped r staged n taken hub p

one_taken :
    {P : Type 0} (r : Result (List Uuid × ℕ)) (staged : List Uuid) (n : ℕ) (row : OutboxRow)
    (taken : List OutboxRow) (hub p : P)
    → Looped r (staged ++ row.id ∷ []) (n + 1) taken hub p
    → Looped r staged n (row ∷ taken) hub p
one_taken r staged n row taken hub p (broken e h) = broken e h
one_taken r staged n row taken hub p (finished h q) =
    finished (h ∙ ap ok (pair (append_assoc staged (row.id ∷ []) (ids_of taken)) (omega arith))) q
  where
    pair : {a b : List Uuid} {c d : ℕ} → a ≡ b → c ≡ d → Path (List Uuid × ℕ) (a, c) (b, d)
    pair e f = cc

module _ {P : Type 0} (pub_event : Publisher P) (tx : Tx) where
  pub publish_rows-table :
      (k : ℕ) (rows : List OutboxRow) (staged : List Uuid) (n : ℕ) (w : Worker P)
      → let r = publish_rows pub_event tx k rows staged n w in
        (r.1.table ≡ w.table) × (r.1.successes ≡ w.successes)
  unfolding publish_rows
  publish_rows-table k [] staged n w = (refl, refl)
  publish_rows-table k (row ∷ rows) staged n w =
      elim (Option-cases (pub_event k (row_to_event row) w.hub).0) [
        | inr (e, h) ↦ rw (h, publish_rows) (publish_rows-table (suc k) rows staged n _)
        | inl h ↦ elim (Option-cases (tx.exec k)) [
          | inr (e, x) ↦ rw (h, publish_rows) (rw (x, publish_rows) (refl, refl))
          | inl x ↦
              rw (h, publish_rows)
                (rw (x, publish_rows)
                  (publish_rows-table (suc k) rows (staged ++ row.id ∷ []) (n + 1) _))
        ]
      ]

  pub publish_rows-Looped :
      (k : ℕ) (rows : List OutboxRow) (staged : List Uuid) (n : ℕ) (w : Worker P)
      → let r = publish_rows pub_event tx k rows staged n w in
        let (taken, p) = accepted pub_event k rows w.hub in Looped r.0 staged n taken r.1.hub p
  unfolding publish_rows accepted
  publish_rows-Looped k [] staged n w =
      finished (rw append-nil (ap (λ m. ok (staged, m)) (omega arith))) refl
  publish_rows-Looped k (row ∷ rows) staged n w =
      elim (Option-cases (pub_event k (row_to_event row) w.hub).0) [
        | inr (e, h) ↦ rw (h, publish_rows) (publish_rows-Looped (suc k) rows staged n _)
        | inl h ↦ elim (Option-cases (tx.exec k)) [
          | inr (e, x) ↦ rw (h, publish_rows) (rw (x, publish_rows) (broken e refl))
          | inl x ↦
              rw (h, publish_rows)
                (rw (x, publish_rows)
                  (one_taken _ staged n row _ _ _
                    (publish_rows-Looped (suc k) rows (staged ++ row.id ∷ []) (n + 1) _)))
        ]
      ]

  -- The scan reads all the rows or fails.
  pub scan_rows_lem :
      (k : ℕ) (rows batch : List OutboxRow) (all : List OutboxRow)
      → scan_rows tx k rows batch ≡ ok all
      → all ≡ batch ++ rows
  unfolding scan_rows
  scan_rows_lem k [] batch all h = rw append-nil cc
  scan_rows_lem k (r ∷ rs) batch all h = elim (Option-cases (tx.scan k)) [
    | inl n ↦
        let tail : scan_rows tx (suc k) rs (batch ++ r ∷ []) ≡ ok all = rw (n, scan_rows) at h in
        scan_rows_lem (suc k) rs (batch ++ r ∷ []) all tail ∙ append_assoc batch (r ∷ []) rs
    | inr (e, n) ↦ let bad : err e ≡ ok all = rw (n, scan_rows) at h in absurd cc
  ]
