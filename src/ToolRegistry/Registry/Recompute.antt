-- ===== src/ToolRegistry/Registry/Recompute.antt =====
-- core/pkg/toolregistry/registry.go: Recompute, from the build to the published events.
pub mod Served
use watchkeepers.Prelude.{
  ℕ, zero, suc, ◌+◌, ◌-◌, ◌%◌, ◌^◌, String, Bool, true, false, not, Option, none, some, List, [],
  ◌∷◌, ◌++◌, if◌then◌else◌, ◌==◌, string_eq, number_eq, leb, Map, put, empty_map, length, get_elem?,
  map, ℤ, pos, negsuc,
}
use watchkeepers.Go.Errors.{Error, sentinel, wrap, wrap_two, Result, ok, err}
use watchkeepers.Go.Text.{is_blank}
use watchkeepers.ToolRegistry.{ShadowedTool}
use watchkeepers.ToolRegistry.Loading.{FilePath}
use watchkeepers.ToolRegistry.Config.{SourceConfig, validate_sources}
use watchkeepers.ToolRegistry.Scan.{Env, LogLine}
use watchkeepers.ToolRegistry.Effective.{EffectiveToolset, new_effective_toolset, len}
use watchkeepers.ToolRegistry.Build.{build_effective}
use watchkeepers.ToolRegistry.Registry.{Registry, swap_in}

abbrev pub err_publish_after_swap : String
err_publish_after_swap = "ErrPublishAfterSwap"

abbrev pub err_publish_tool_shadowed : String
err_publish_tool_shadowed = "ErrPublishToolShadowed"

pub data RegistryEvent : Type 0 where
  tool_shadowed : ShadowedTool → ℕ → ℕ → ℕ → RegistryEvent
  effective_toolset_updated : ℕ → ℕ → ℕ → ℕ → ℕ → RegistryEvent

pub data RegistryLog : Type 0 where
  scan_log : LogLine → RegistryLog
  publish_shadow_failed : ℕ → String → String → RegistryLog
  publish_updated_failed : ℕ → RegistryLog
  shadows_dropped : ℕ → ℕ → RegistryLog
  shadow_detected : ℕ → ShadowedTool → RegistryLog

-- What a call of `Recompute` gives besides the state: its error, the events that it tries to publish in
-- their order, and its log.
pub record Report : Type 0 where
  pub error : Option Error
  pub events : List RegistryEvent
  pub logs : List RegistryLog

pub log_shadows_dropped : ℕ → List ShadowedTool → List RegistryLog
log_shadows_dropped revision [] = []
log_shadows_dropped revision (sh ∷ shs) =
    shadows_dropped revision (length (sh ∷ shs)) ∷ map (shadow_detected revision) (sh ∷ shs)

note_answer : Option Error → ℕ → ShadowedTool → Report → Report
note_answer none revision sh out = out
note_answer (some e) revision sh out = record out {
  logs = out.logs ++ publish_shadow_failed revision sh.tool_name sh.shadowed_source ∷ [];
  error = elim out.error [ none ↦ some e | some first ↦ some first ];
}

-- `answers i` is what the publisher answers to the i-th publish of the phase; the report's error is the
-- first one so far.
publish_shadows : (ℕ → Option Error) → ℕ → ℕ → ℕ → List ShadowedTool → Report → Report
unfolding note_answer
publish_shadows answers i revision built_at [] out = out
publish_shadows answers i revision built_at (sh ∷ shs) out =
    let sent : Report = record out {
      events = out.events ++ tool_shadowed sh revision built_at built_at ∷ [];
    } in
    publish_shadows answers (suc i) revision built_at shs (note_answer (answers i) revision sh sent)

empty_report : Report
empty_report = record { error = none; events = []; logs = [] }

unfoldable pub publish_phase : (ℕ → Option Error) → ℕ → ℕ → ℕ → ℕ → List ShadowedTool → Report
unfolding publish_shadows empty_report
publish_phase answers revision built_at tool_count source_count shadows =
    let out = publish_shadows answers 0 revision built_at shadows empty_report in
    let events =
      out.events
      ++ effective_toolset_updated revision built_at tool_count source_count built_at ∷ [] in
    elim (answers (length shadows)) [
      | some e ↦ record {
        error = some (wrap_two "%w: revision %d: %w" (sentinel err_publish_after_swap) e);
        events = events;
        logs = out.logs ++ publish_updated_failed revision ∷ [];
      }
      | none ↦ elim out.error [
        | some e ↦ record {
          error = some (wrap_two "%w: revision %d: %w" (sentinel err_publish_tool_shadowed) e);
          events = events;
          logs = out.logs;
        }
        | none ↦ record { error = none; events = events; logs = out.logs }
      ]
    ]

abbrev source_name_of : SourceConfig → String
source_name_of sc = sc.name

-- `publisher` is none when no publisher is wired.
unfoldable pub recompute : Env → Option (ℕ → Option Error) → ℕ → Registry → Report × Registry
unfolding build_effective swap_in publish_phase log_shadows_dropped
recompute env publisher built_at r =
    let (built, lines) = build_effective env r.data_dir (map source_name_of r.sources) built_at in
    let scan_logs = map scan_log lines in
    elim built [
      | err e ↦ (record { error = some e; events = []; logs = scan_logs }, r)
      | ok (snap, shadows) ↦
          let revision = r.rev_counter + 1 in
          elim publisher [
            | none ↦ (
              record {
                error = none;
                events = [];
                logs = scan_logs ++ log_shadows_dropped revision shadows;
              },
              swap_in snap built_at r,
            )
            | some answers ↦
                let out =
                  publish_phase answers revision built_at (len snap) (length r.sources) shadows in
                (record out { logs = scan_logs ++ out.logs }, swap_in snap built_at r)
          ]
    ]
