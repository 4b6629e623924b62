-- ===== src/ToolRegistry/Effective/Index.antt =====
-- The snapshot's index against a search of the tools it was built from.
use watchkeepers.Prelude.{
  ℕ, String, ◌≡◌, ◌∙◌, List, [], ◌∷◌, ◌++◌, Map, empty_map, put, length, suc, string_eq,
  append_assoc, append-nil, arith, length-append,
}
use watchkeepers.ToolRegistry.{EffectiveTool}
use watchkeepers.ToolRegistry.Order.{
  sort_by, find_key, DistinctKeys, sort_by-DistinctKeys, find_key-sort_by,
}
use watchkeepers.ToolRegistry.Keyed.{
  DistinctKeys-before, Indexes, empty-Indexes, put-Indexes, lookup-Indexes,
}
use watchkeepers.ToolRegistry.Effective.{
  tool_name_of, index_from, new_effective_toolset, lookup_tool,
}

index_from-Indexes :
    (ts done : List EffectiveTool) (m : Map String ℕ)
    → DistinctKeys tool_name_of (done ++ ts)
    → Indexes tool_name_of m done
    → Indexes tool_name_of (index_from (length done) ts m) (done ++ ts)
unfolding index_from
index_from-Indexes [] done m d h = rw (append-nil done) h
index_from-Indexes (t ∷ ts) done m d h =
    let next : Indexes tool_name_of (put t.manifest.name (length done) m) (done ++ t ∷ []) =
      put-Indexes tool_name_of m done t h (DistinctKeys-before tool_name_of done t ts d) in
    let rest : Indexes tool_name_of
        (index_from (length (done ++ t ∷ [])) ts (put t.manifest.name (length done) m))
        ((done ++ t ∷ []) ++ ts) =
      index_from-Indexes ts (done ++ t ∷ []) _ (rw (append_assoc done (t ∷ []) ts) d) next in
    let one_more : length (done ++ t ∷ []) ≡ suc (length done) =
      length-append done (t ∷ []) ∙ omega arith in
    rw (append_assoc done (t ∷ []) ts, one_more) at rest

-- A lookup by name finds the first of the given tools that has it, when the names are distinct.
pub lookup_tool-new :
    (revision built_at : ℕ) (tools : List EffectiveTool) (name : String)
    → DistinctKeys tool_name_of tools
    → lookup_tool name (new_effective_toolset revision built_at tools)
      ≡ find_key tool_name_of name tools
unfolding lookup_tool new_effective_toolset
lookup_tool-new revision built_at tools name d =
    lookup-Indexes tool_name_of _ (sort_by tool_name_of tools)
      (index_from-Indexes (sort_by tool_name_of tools) [] empty_map
        (sort_by-DistinctKeys tool_name_of tools d) (empty-Indexes tool_name_of))
      name
    ∙ find_key-sort_by tool_name_of name tools
