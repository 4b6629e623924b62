-- ===== src/Kickoff/Once.antt =====
-- An approval is acted on once: a first call of a kickoffer and a second one with the same token.
use mathlib.Core.Option
use watchkeepers.Prelude.{
  ℕ, String, ◌≡◌, ◌≢◌, refl, ap, sym, false, Option, none, List, [], ◌∷◌, ◌++◌, length,
  Option-cases, some_not_none, inl, inr, ◌⊎◌, ◌∙◌, arith, ◌==◌, number_eq, string_eq,
}
use watchkeepers.Go.Errors.{Error, ok, wrap}
use watchkeepers.Go.Text.{is_blank}
use watchkeepers.Saga.{Uuid, nil_uuid, Saga, completed, failed}
use watchkeepers.Saga.Store.{
  MemorySpawnSagaDao, memory_dao, insert_if_absent, inserted_as, replay_of, get,
}
use watchkeepers.Saga.Store.Contract.{memory_dao_laws}
use watchkeepers.Saga.Store.Claims.{key_claimed_once}
use watchkeepers.Saga.Store.Insertion.{Inserted, insert_if_absent-Inserted, held_row}
use watchkeepers.Saga.Runner.{Step, World, run}
use watchkeepers.Saga.Runner.Outcome.{run_terminal}
use watchkeepers.Saga.Runner.Stored.{Reached, run-Reached}
use watchkeepers.Kickoff.Rows.{Kind, About}
use watchkeepers.Kickoff.{
  Value, Order, append, about, run_context, reject, launch, replay_row, proceed, kickoff,
  is_pending,
}

some_not_nil : (id : Uuid) → id ≢ nil_uuid → (id == nil_uuid) ≡ false
some_not_nil id n = ground arith

not_pending :
    {P Q : Type 0} (row : Saga)
    → (row.status ≡ completed) × P ⊎ (row.status ≡ failed) × Q
    → is_pending row.status ≡ false
not_pending row (inl (e, _)) = ap is_pending e
not_pending row (inr (e, _)) = ap is_pending e

module _ {W C : Type 0} (uuid_text : Uuid → String) (kind : Kind) (with_value : Value C → ℕ → ℕ)
    (agent_id : String) (steps : List (Step W)) (answers : ℕ → Option Error) where
  abbrev kick :
      Order C → String → World MemorySpawnSagaDao W → Option Error × World MemorySpawnSagaDao W
  kick = kickoff uuid_text memory_dao kind with_value agent_id steps answers

  abbrev named : Saga → String → About
  named = about uuid_text memory_dao kind with_value agent_id steps answers

  abbrev begin :
      Order C
      → Saga
      → String
      → World MemorySpawnSagaDao W
      → Option Error × World MemorySpawnSagaDao W
  begin = launch uuid_text memory_dao kind with_value agent_id steps answers

  -- The run of a launch.
  abbrev ran :
      Order C
      → Saga
      → String
      → World MemorySpawnSagaDao W
      → Option Error × World MemorySpawnSagaDao W
  ran o row token s =
      run uuid_text memory_dao
        (run_context uuid_text memory_dao kind with_value agent_id steps answers o row) row.id steps
        (append answers (kind.approved (named row token)) s).1

  reject-dao :
      (row : Saga) (token : String) (e : Error) (s : World MemorySpawnSagaDao W)
      → (reject uuid_text memory_dao kind with_value agent_id steps answers row token e s).1.dao
        ≡ s.dao
  unfolding reject
  reject-dao row token e s = elim (Option-cases kind.rejected) [ inl h ↦ rw h | inr (r, h) ↦ rw h ]

  launch_lem :
      (o : Order C) (row : Saga) (token : String) (s : World MemorySpawnSagaDao W)
      → answers (length s.log) ≡ none
      → ((begin o row token s).1.dao ≡ (ran o row token s).1.dao)
        × ((ran o row token s).0 ≡ none → (begin o row token s).0 ≡ none)
        × ((ran o row token s).0 ≢ none → (begin o row token s).0 ≢ none)
  unfolding launch
  launch_lem o row token s a = elim (Option-cases (ran o row token s).0) [
    | inl h ↦ rw (a, launch) (rw (h, launch) (refl, λ _. refl, λ n. absurd (n refl)))
    | inr (e, h) ↦
        rw (a, launch)
          (rw (h, launch)
            (reject-dao row token e _, λ n. absurd (some_not_none n), λ _ n. some_not_none n))
  ]

  first_kickoff :
      (o : Order C) (token : String) (s : World MemorySpawnSagaDao W) (row : Saga)
      → Inserted o.saga_id o.manifest o.keeper token s.dao row
      → (insert_if_absent o.saga_id o.manifest o.keeper token s.dao).0 ≡ ok (inserted_as row)
      → kick o token s
        ≡ begin o row token
            (record s { dao = (insert_if_absent o.saga_id o.manifest o.keeper token s.dao).1 })
  unfolding kickoff proceed
  first_kickoff o token s row i h =
      rw (i.some_id, kickoff)
        (rw (i.some_manifest, kickoff)
          (rw (i.some_keeper, kickoff) (rw (i.some_key, kickoff) (rw (h, kickoff)))))

  again_kickoff :
      (o : Order C) (token : String) (s : World MemorySpawnSagaDao W) (held : Saga)
      → o.saga_id ≢ nil_uuid
      → o.manifest ≢ nil_uuid
      → o.keeper ≢ nil_uuid
      → is_blank token ≡ false
      → insert_if_absent o.saga_id o.manifest o.keeper token s.dao ≡ (ok (replay_of held), s.dao)
      → is_pending held.status ≡ false
      → kick o token s
        ≡ replay_row uuid_text memory_dao kind with_value agent_id steps answers held token s
  unfolding kickoff proceed
  again_kickoff o token s held n0 n1 n2 b h p =
      rw (some_not_nil o.saga_id n0, kickoff)
        (rw (some_not_nil o.manifest n1, kickoff)
          (rw (some_not_nil o.keeper n2, kickoff)
            (rw (b, kickoff)
              (rw (h, kickoff)
                (rw (p, proceed)
                  (ap
                    (λ d.
                      replay_row uuid_text memory_dao kind with_value agent_id steps answers held
                        token (record s { dao = d }))
                    (ap (λ r. r.1) h)))))))

  replay_row_lem :
      (row : Saga) (token : String) (s : World MemorySpawnSagaDao W)
      → replay_row uuid_text memory_dao kind with_value agent_id steps answers row token s ≡ (
        Option.map (wrap kind.append_replayed_failed) (answers (length s.log)),
        record s { log = s.log ++ kind.replayed (named row token) row.status ∷ [] },
      )
  unfolding replay_row
  replay_row_lem row token s = elim (Option-cases (answers (length s.log))) [
    | inl h ↦ rw (h, replay_row)
    | inr (e, h) ↦ rw (h, replay_row)
  ]

  -- How a first call ends: the saga's row, and the store as calls of its methods left it.
  record Ended (o : Order C) (token : String) (s : World MemorySpawnSagaDao W) (row : Saga)
      : Type 0 where
    reached :
        Reached
          (insert_if_absent o.saga_id o.manifest o.keeper token s.dao).1
          (kick o token s).1.dao
    last : Saga
    there : get row.id (kick o token s).1.dao ≡ ok last
    outcome :
        (last.status ≡ completed) × ((kick o token s).0 ≡ none)
        ⊎ (last.status ≡ failed) × ((kick o token s).0 ≢ none)

  first_kickoff-Ended :
      (o : Order C) (token : String) (s : World MemorySpawnSagaDao W) (row : Saga)
      → (insert_if_absent o.saga_id o.manifest o.keeper token s.dao).0 ≡ ok (inserted_as row)
      → answers (length s.log) ≡ none
      → Ended o token s row
  first_kickoff-Ended o token s row h a =
      let i = insert_if_absent-Inserted o.saga_id o.manifest o.keeper token s.dao row h in
      let s₁ : World MemorySpawnSagaDao W = record s {
        dao = (insert_if_absent o.saga_id o.manifest o.keeper token s.dao).1;
      } in
      let e = first_kickoff o token s row i h in
      let (same_dao, nil_if, only_if) = launch_lem o row token s₁ a in
      let dao_of_run = ap (λ r. r.1.dao) e ∙ same_dao in
      let start = (append answers (kind.approved (named row token)) s₁).1 in
      let ctx = run_context uuid_text memory_dao kind with_value agent_id steps answers o row in
      let (last, there, outcome) =
        run_terminal uuid_text memory_dao_laws ctx row.id steps start row i.there in
      let (cs, by_calls) = run-Reached uuid_text ctx row.id steps start in
      record {
        reached = (cs, dao_of_run ∙ by_calls);
        last = last;
        there = rw dao_of_run there;
        outcome = elim outcome [
          | inl (status, returned) ↦ inl (status, ap (λ r. r.0) e ∙ nil_if returned)
          | inr (status, returned) ↦ inr (status, λ n. only_if returned (sym (ap (λ r. r.0) e) ∙ n))
        ];
      }

  -- Over the in-memory store, let a first call of a kickoffer insert the saga's row under the token,
  -- and let the log take its approved row. Then that call leaves the saga's row completed if it
  -- returned nil and failed if it returned an error. A second call that begins after the first has
  -- returned, on the world it left, with the same token and any ids but nil, runs no step and writes
  -- nothing to the store: it hands over exactly the replayed row, with the first call's ids and the
  -- row's status, and returns nil unless the log refuses that row.
  pub kickoff_once :
      (o : Order C) (token : String) (s : World MemorySpawnSagaDao W) (row : Saga)
      → (insert_if_absent o.saga_id o.manifest o.keeper token s.dao).0 ≡ ok (inserted_as row)
      → answers (length s.log) ≡ none
      → (again : Order C) → again.saga_id ≢ nil_uuid
      → again.manifest ≢ nil_uuid
      → again.keeper ≢ nil_uuid
      → let (returned, left) = kick o token s in
        (last : Saga) × (get row.id left.dao ≡ ok last)
        × ((last.status ≡ completed) × (returned ≡ none)
            ⊎ (last.status ≡ failed) × (returned ≢ none))
        × (last.id ≡ o.saga_id)
        × (last.manifest_version_id ≡ o.manifest)
        × (last.watchkeeper_id ≡ o.keeper)
        × (kick again token left ≡ (
          Option.map (wrap kind.append_replayed_failed) (answers (length left.log)),
          record left { log = left.log ++ kind.replayed (named last token) last.status ∷ [] },
        ))
  kickoff_once o token s row h a again n₀ n₁ n₂ =
      let i = insert_if_absent-Inserted o.saga_id o.manifest o.keeper token s.dao row h in
      let e = first_kickoff-Ended o token s row h a in
      let (cs, by_calls) = e.reached in
      let left = (kick o token s).1 in
      let (held, replayed, stored, id, manifest, keeper) =
        key_claimed_once o.saga_id o.manifest o.keeper token s.dao row h cs again.saga_id
          again.manifest again.keeper n₀ n₁ n₂ in
      let same = held_row row.id left.dao e.last held e.there (rw by_calls stored) in
      let replay : insert_if_absent again.saga_id again.manifest again.keeper token left.dao
          ≡ (ok (replay_of e.last), left.dao) =
        rw (by_calls, ← same) replayed in
      (
        e.last,
        e.there,
        e.outcome,
        rw (← same) (id ∙ i.same_id),
        rw (← same) (manifest ∙ i.same_manifest),
        rw (← same) (keeper ∙ i.same_keeper),
        again_kickoff again token left e.last n₀ n₁ n₂ i.some_key replay
              (not_pending e.last e.outcome)
            ∙ replay_row_lem e.last token left,
      )
