-- ===== src/ToolRegistry/Registry/Recompute/Served.antt =====
-- Recompute from the disk to the snapshot that is served and the events that are published.
use watchkeepers.Prelude.{
  get-update-other, update_at, ℕ, zero, suc, ◌+◌, ◌≡◌, refl, sym, ◌∙◌, ap, String, Option, none,
  some, List, [], ◌∷◌, ◌++◌, map, Option-cases, inl, inr, arith, length, get_elem?, append_assoc,
  append-nil,
}
use watchkeepers.Go.Errors.{Error, wrap_two, sentinel, ok}
use watchkeepers.ToolRegistry.{ShadowedTool}
use watchkeepers.ToolRegistry.Keyed.{get_elem-length, or_else, or_else-none, or_else_assoc}
use watchkeepers.ToolRegistry.Scan.{Env}
use watchkeepers.ToolRegistry.Scan.Kept.{Quiet}
use watchkeepers.ToolRegistry.Effective.{EffectiveToolset, lookup_tool, len}
use watchkeepers.ToolRegistry.Build.{build_effective}
use watchkeepers.ToolRegistry.Build.Flattened.{first_source}
use watchkeepers.ToolRegistry.Build.Precedence.{Readable, IsFlattened, build-IsFlattened}
use watchkeepers.ToolRegistry.Registry.{
  RegistryEntry, Registry, snapshot, swap_in, retire_entry, sweep_retiring,
}
use watchkeepers.ToolRegistry.Registry.Recompute.{
  RegistryEvent, tool_shadowed, effective_toolset_updated, Report, note_answer, publish_shadows,
  publish_phase, empty_report, recompute, source_name_of, err_publish_after_swap,
  err_publish_tool_shadowed,
}
use watchkeepers.ToolRegistry.Registry.Counted.{IsCounted}

-- After a swap the snapshot that is served is the new one under the next revision.
snapshot-swap_in :
    (snap : EffectiveToolset) (now : ℕ) (r : Registry)
    → IsCounted r
    → snapshot (swap_in snap now r) ≡ some (record snap { revision = r.rev_counter + 1 })
unfolding snapshot swap_in retire_entry sweep_retiring
snapshot-swap_in snap now r h =
    let fresh : RegistryEntry = record {
      snapshot = record snap { revision = r.rev_counter + 1 };
      refcount = 0;
      retired_at = none;
    } in
    let there : get_elem?
          (update_at r.current (λ e. record e { retired_at = some now }) (r.entries ++ fresh ∷ []))
          (length r.entries)
        ≡ some fresh =
      get-update-other r.current _ (r.entries ++ fresh ∷ []) (length r.entries)
        (λ p. omega (arith, p, h.newest))
      ∙ get_elem-length r.entries [] fresh in
    rw (snapshot, there) refl

-- The first error among `n` answers from the `i`-th on.
unfoldable pub first_error : (ℕ → Option Error) → ℕ → ℕ → Option Error
first_error answers i zero = none
first_error answers i (suc n) = or_else (answers i) (first_error answers (suc i) n)

abbrev pub shadow_event : ℕ → ℕ → ShadowedTool → RegistryEvent
shadow_event revision built_at sh = tool_shadowed sh revision built_at built_at

note_answer-events :
    (a : Option Error) (revision : ℕ) (sh : ShadowedTool) (out : Report)
    → ((note_answer a revision sh out).events ≡ out.events)
      × ((note_answer a revision sh out).error ≡ or_else out.error a)
unfolding note_answer
note_answer-events none revision sh out = (refl, sym (or_else-none out.error))
note_answer-events (some e) revision sh out = elim (Option-cases out.error) [
  | inl n ↦ (refl, rw n refl)
  | inr (first, n) ↦ (refl, rw n refl)
]

publish_shadows-events :
    (answers : ℕ → Option Error) (i revision built_at : ℕ) (shs : List ShadowedTool) (out : Report)
    → ((publish_shadows answers i revision built_at shs out).events
        ≡ out.events ++ map (shadow_event revision built_at) shs)
      × ((publish_shadows answers i revision built_at shs out).error
          ≡ or_else out.error (first_error answers i (length shs)))
unfolding publish_shadows first_error
publish_shadows-events answers i revision built_at [] out =
    (sym (append-nil out.events), sym (or_else-none out.error))
publish_shadows-events answers i revision built_at (sh ∷ shs) out =
    let sent : Report = record out {
      events = out.events ++ tool_shadowed sh revision built_at built_at ∷ [];
    } in
    let (ev, er) =
      publish_shadows-events answers (suc i) revision built_at shs
        (note_answer (answers i) revision sh sent) in
    let (ev', er') = note_answer-events (answers i) revision sh sent in
    (
      ev
          ∙ (ap (λ l. l ++ map (shadow_event revision built_at) shs) ev'
              ∙ append_assoc out.events _ _),
      er
          ∙ (ap (λ o. or_else o (first_error answers (suc i) (length shs))) er'
              ∙ or_else_assoc out.error (answers i) _),
    )

-- What a recompute returns when the build was good: a failure of the last publish, which is that of the
-- new toolset, comes before the first failure of a shadow's.
abbrev pub publish_error : Option Error → Option Error → Option Error
publish_error (some e) first =
    some (wrap_two "%w: revision %d: %w" (sentinel err_publish_after_swap) e)
publish_error none (some e) =
    some (wrap_two "%w: revision %d: %w" (sentinel err_publish_tool_shadowed) e)
publish_error none none = none

publish_phase-events :
    (answers : ℕ → Option Error) (revision built_at tool_count source_count : ℕ)
    (shs : List ShadowedTool)
    → ((publish_phase answers revision built_at tool_count source_count shs).events
        ≡ map (shadow_event revision built_at) shs
          ++ effective_toolset_updated revision built_at tool_count source_count built_at ∷ [])
      × ((publish_phase answers revision built_at tool_count source_count shs).error
          ≡ publish_error (answers (length shs)) (first_error answers 0 (length shs)))
unfolding publish_phase empty_report
publish_phase-events answers revision built_at tool_count source_count shs =
    let (ev, er) = publish_shadows-events answers 0 revision built_at shs empty_report in
    elim (Option-cases (answers (length shs))) [
      | inr (e, a) ↦ (rw (publish_phase, a, ev) refl, rw (publish_phase, a) refl)
      | inl a ↦ elim (Option-cases (first_error answers 0 (length shs))) [
        | inr (e, f) ↦ (rw (publish_phase, a, er, f, ev) refl, rw (publish_phase, a, er, f) refl)
        | inl f ↦ (rw (publish_phase, a, er, f, ev) refl, rw (publish_phase, a, er, f) refl)
      ]
    ]

module _ (env : Env) (built_at : ℕ) (r : Registry) (snap : EffectiveToolset)
    (shadows : List ShadowedTool)
    (built : (build_effective env r.data_dir (map source_name_of r.sources) built_at).0
      ≡ ok (snap, shadows)) where
  recompute-swap_in :
      (publisher : Option (ℕ → Option Error))
      → (recompute env publisher built_at r).1 ≡ swap_in snap built_at r
  unfolding recompute
  recompute-swap_in none = rw (recompute, built) refl
  recompute-swap_in (some answers) = rw (recompute, built) refl

  recompute-unpublished :
      (publisher : Option (ℕ → Option Error))
      → publisher ≡ none
      → ((recompute env publisher built_at r).0.events ≡ [])
        × ((recompute env publisher built_at r).0.error ≡ none)
  unfolding recompute
  recompute-unpublished none e = (rw (recompute, built) refl, rw (recompute, built) refl)
  recompute-unpublished (some answers) e = absurd (cc e)

  recompute-published :
      (publisher : Option (ℕ → Option Error)) (answers : ℕ → Option Error)
      → publisher ≡ some answers
      → ((recompute env publisher built_at r).0.events
          ≡ map (shadow_event (r.rev_counter + 1) built_at) shadows
            ++ effective_toolset_updated
                (r.rev_counter + 1)
                built_at
                (len snap)
                (length r.sources)
                built_at
              ∷ [])
        × ((recompute env publisher built_at r).0.error
            ≡ publish_error (answers (length shadows)) (first_error answers 0 (length shadows)))
  unfolding recompute
  recompute-published none answers e = absurd (cc e)
  recompute-published (some given) answers e =
      let same : given ≡ answers = cc e in
      let (ev, er) =
        publish_phase-events given (r.rev_counter + 1) built_at (len snap) (length r.sources)
          shadows in
      rw (← same) (rw (recompute, built) ev, rw (recompute, built) er)

-- What a recompute leaves and reports.
pub record IsServed (env : Env) (publisher : Option (ℕ → Option Error)) (built_at : ℕ)
    (r : Registry) : Type 0 where
  pub snap : EffectiveToolset
  pub shadows : List ShadowedTool
  pub flattened : IsFlattened env r.data_dir built_at (map source_name_of r.sources) snap shadows
  pub served :
      snapshot (recompute env publisher built_at r).1
      ≡ some (record snap { revision = r.rev_counter + 1 })
  pub serves :
      (k : String)
      → lookup_tool k (record snap { revision = r.rev_counter + 1 })
        ≡ first_source env r.data_dir (map source_name_of r.sources) k
  pub unpublished :
      publisher ≡ none
      → ((recompute env publisher built_at r).0.events ≡ [])
        × ((recompute env publisher built_at r).0.error ≡ none)
  pub published :
      (answers : ℕ → Option Error)
      → publisher ≡ some answers
      → ((recompute env publisher built_at r).0.events
          ≡ map (shadow_event (r.rev_counter + 1) built_at) shadows
            ++ effective_toolset_updated
                (r.rev_counter + 1)
                built_at
                (len snap)
                (length r.sources)
                built_at
              ∷ [])
        × ((recompute env publisher built_at r).0.error
            ≡ publish_error (answers (length shadows)) (first_error answers 0 (length shadows)))

-- When the counts are in order, the context is never done and no error of reading a directory is one of
-- the context's, a recompute serves the flattened toolset of its build under the next revision, whatever
-- the publisher answers: a lookup gives the tool of the first configured source that has the name. With
-- a publisher it tries every shadow's event in their order and last that of the new toolset, all with
-- the new revision, and its error is that of the last publish, else the first of a shadow's, else none;
-- without one it publishes nothing and has no error.
pub recompute-IsServed :
    (env : Env) (publisher : Option (ℕ → Option Error)) (built_at : ℕ) (r : Registry)
    → IsCounted r
    → Quiet env
    → Readable env
    → IsServed env publisher built_at r
unfolding recompute lookup_tool
recompute-IsServed env publisher built_at r h quiet readable =
    let (snap, shadows, flat) =
      build-IsFlattened env r.data_dir (map source_name_of r.sources) built_at quiet readable in
    record {
      snap = snap;
      shadows = shadows;
      flattened = flat;
      served =
          ap snapshot (recompute-swap_in env built_at r snap shadows flat.built publisher)
          ∙ snapshot-swap_in snap built_at r h;
      serves = flat.first_wins;
      unpublished = recompute-unpublished env built_at r snap shadows flat.built publisher;
      published = recompute-published env built_at r snap shadows flat.built publisher;
    }
