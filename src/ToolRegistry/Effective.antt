-- ===== src/ToolRegistry/Effective.antt =====
-- core/pkg/toolregistry/effective.go: the snapshot. A copy that shares no memory with its origin is
-- equal to it here. `Revision` is an int64 counter that only this process advances.
pub mod Index
use watchkeepers.Prelude.{
  ℕ, ◌+◌, suc, String, Option, none, some, List, [], ◌∷◌, map, Map, empty_map, put, length,
  get_elem?, string_eq,
}
use watchkeepers.ToolRegistry.{EffectiveTool}
use watchkeepers.ToolRegistry.Order.{sort_by}

abbrev pub tool_name_of : EffectiveTool → String
tool_name_of t = t.manifest.name

pub record EffectiveToolset : Type 0 where
  pub revision : ℕ
  pub built_at : ℕ
  pub tools : List EffectiveTool
  pub by_name : Map String ℕ

-- The loop that fills `byName`, from the index of the first tool on.
index_from : ℕ → List EffectiveTool → Map String ℕ → Map String ℕ
index_from i [] by_name = by_name
index_from i (t ∷ ts) by_name = index_from (suc i) ts (put t.manifest.name i by_name)

unfoldable pub new_effective_toolset : ℕ → ℕ → List EffectiveTool → EffectiveToolset
unfolding index_from sort_by
new_effective_toolset revision built_at tools =
    let sorted = sort_by tool_name_of tools in
    record {
      revision = revision;
      built_at = built_at;
      tools = sorted;
      by_name = index_from 0 sorted empty_map;
    }

unfoldable pub lookup_tool : String → EffectiveToolset → Option EffectiveTool
lookup_tool name s = elim (s.by_name name) [ none ↦ none | some idx ↦ get_elem? s.tools idx ]

abbrev pub names : EffectiveToolset → List String
names s = map tool_name_of s.tools

abbrev pub len : EffectiveToolset → ℕ
len s = length s.tools
