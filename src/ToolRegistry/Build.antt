-- ===== src/ToolRegistry/Build.antt =====
-- core/pkg/toolregistry/scanner.go: BuildEffective. `ctx` before a source's directory is the test at
-- the head of the loop.
pub mod Flattened
pub mod Precedence
pub mod Valid
use watchkeepers.Prelude.{
  ℕ, ◌+◌, String, Bool, true, false, ◌||◌, Option, none, some, List, [], ◌∷◌, ◌++◌, if◌then◌else◌,
  string_eq, Map, empty_map, put, length, get_elem?,
}
use watchkeepers.Go.Errors.{Error, Result, ok, err, is_error}
use watchkeepers.Go.Context.{canceled, deadline_exceeded}
use watchkeepers.ToolRegistry.{Manifest, EffectiveTool, ShadowedTool}
use watchkeepers.ToolRegistry.Loading.{FilePath}
use watchkeepers.ToolRegistry.Scan.{Env, LogLine, source_failed, scan_source_dir}
use watchkeepers.ToolRegistry.Effective.{EffectiveToolset, new_effective_toolset}

pub record Merge : Type 0 where
  pub winner_idx : Map String ℕ
  pub merged : List EffectiveTool
  pub shadows : List ShadowedTool

abbrev pub empty_merge : Merge
empty_merge = record { winner_idx = empty_map; merged = []; shadows = [] }

-- An index that is out of range is a panic in Go; `Flattened.IsMerged` has that there is none.
pub merge_one : String → Manifest → Merge → Merge
merge_one src m st = elim (st.winner_idx m.name) [
  | some idx ↦ elim (get_elem? st.merged idx) [
    | none ↦ st
    | some winner ↦ record st {
      shadows =
          st.shadows
          ++ record {
            tool_name = m.name;
            winner_source = winner.source;
            winner_version = winner.manifest.version;
            shadowed_source = src;
            shadowed_version = m.version;
          }
            ∷ [];
    }
  ]
  | none ↦ record st {
    merged = st.merged ++ record { source = src; manifest = m } ∷ [];
    winner_idx = put m.name (length st.merged) st.winner_idx;
  }
]

pub merge_source : String → List Manifest → Merge → Merge
unfolding merge_one
merge_source src [] st = st
merge_source src (m ∷ ms) st = merge_source src ms (merge_one src m st)

unfoldable pub is_context_error : Error → Bool
is_context_error e = is_error e canceled || is_error e deadline_exceeded

pub build_sources : Env → FilePath → List String → Merge → (Option Error × Merge) × List LogLine
unfolding merge_source is_context_error
build_sources env data_dir [] st = ((none, st), [])
build_sources env data_dir (src ∷ srcs) st = elim (env.ctx (data_dir ++ "tools" ∷ src ∷ [])) [
  | some e ↦ ((some e, st), [])
  | none ↦
      let (scanned, logs) = scan_source_dir env data_dir src in
      elim scanned [
        | ok manifests ↦
            let (out, more) = build_sources env data_dir srcs (merge_source src manifests st) in
            (out, logs ++ more)
        | err e ↦
            let (out, more) = build_sources env data_dir srcs st in
            if is_context_error e
            then ((some e, st), logs)
            else (out, logs ++ source_failed src ∷ more)
      ]
]

unfoldable pub build_effective :
    Env → FilePath → List String → ℕ → Result (EffectiveToolset × List ShadowedTool) × List LogLine
unfolding build_sources
build_effective env data_dir sources built_at =
    let ((cancelled, st), logs) = build_sources env data_dir sources empty_merge in
    elim cancelled [
      | some e ↦ (err e, logs)
      | none ↦ (ok (new_effective_toolset 0 built_at st.merged, st.shadows), logs)
    ]
