-- ===== src/ToolRegistry/Build/Precedence.antt =====
-- BuildEffective against the sources in their configured order.
use watchkeepers.Prelude.{
  ℕ, ◌+◌, String, ◌≡◌, refl, sym, ◌∙◌, false, Option, none, some, List, [], ◌∷◌, ◌++◌, string_eq,
  inl, inr, length, Every, arith,
}
use watchkeepers.Go.Errors.{Error, Result, ok, err, wrap_two, sentinel, is_error}
use watchkeepers.ToolRegistry.{Manifest, EffectiveTool, ShadowedTool, err_scan_read_dir}
use watchkeepers.ToolRegistry.Loading.{FilePath}
use watchkeepers.ToolRegistry.Order.{
  find_key, DistinctKeys, IsSorted, sort_by-IsSorted, length-sort_by, sort_by-DistinctKeys,
}
use watchkeepers.ToolRegistry.Keyed.{or_else, or_else-none, or_else_assoc, distinct-found}
use watchkeepers.ToolRegistry.Scan.{Env, scan_source_dir, manifest_name}
use watchkeepers.ToolRegistry.Scan.Kept.{directory_tools, Quiet, scan-IsScanOf}
use watchkeepers.ToolRegistry.Effective.{
  EffectiveToolset, tool_name_of, new_effective_toolset, lookup_tool,
}
use watchkeepers.ToolRegistry.Effective.Index.{lookup_tool-new}
use watchkeepers.ToolRegistry.Build.{
  Merge, empty_merge, merge_source, build_sources, build_effective, is_context_error,
}
use watchkeepers.ToolRegistry.Build.Flattened.{
  first_source, first_of, IsShadow, IsShadow-ext, IsMerged, IsMerged-ext, merge_source-IsMerged,
  empty-IsMerged,
}

abbrev pub count_of : Result (List Manifest) → ℕ
count_of (ok ms) = length ms
count_of (err e) = 0

-- No error of reading a directory is one of the context's.
abbrev pub Readable : Env → Type 0
Readable env = (p : FilePath) (e : Error) → env.disk.read_dir p ≡ err e → is_context_error e ≡ false

module _ (env : Env) (data_dir : FilePath) where
  -- How many manifests the scans of the sources give.
  unfoldable pub scanned_count : List String → ℕ
  scanned_count [] = 0
  scanned_count (s ∷ ss) = count_of (scan_source_dir env data_dir s).0 + scanned_count ss

  -- What the directories of the source have under the manifest's name is the manifest.
  abbrev pub Has : String → Manifest → Type 0
  Has src m = find_key manifest_name m.name (directory_tools env data_dir src) ≡ some m

  build_sources-IsMerged :
      (srcs : List String) (st : Merge) (first : String → Option EffectiveTool) (n : ℕ)
      → Quiet env
      → Readable env
      → IsMerged Has st first n
      → ((build_sources env data_dir srcs st).0.0 ≡ none)
        × IsMerged Has
            (build_sources env data_dir srcs st).0.1
            (λ k. or_else (first k) (first_source env data_dir srcs k))
            (n + scanned_count srcs)
  unfolding build_sources first_source scanned_count first_of directory_tools is_context_error
      is_error
  build_sources-IsMerged [] st first n quiet readable h = (
    refl,
    IsMerged-ext Has st first _ n (n + 0) (λ k. sym (or_else-none (first k))) (omega arith) h,
  )
  build_sources-IsMerged (s ∷ ss) st first n quiet readable h =
      elim (scan-IsScanOf env data_dir s quiet) [
        | inl (ms, _, scanned, is_scan) ↦
            let own : Every (Has s) ms =
              distinct-found manifest_name _ [] ms is_scan.distinct is_scan.finds in
            let (done, merged) =
              build_sources-IsMerged ss (merge_source s ms st) _ (n + length ms) quiet readable
                (merge_source-IsMerged Has s ms st first n own h) in
            rw (build_sources, quiet (data_dir ++ "tools" ∷ s ∷ []), scanned)
              (
                done,
                IsMerged-ext Has _ _ _ (n + length ms + scanned_count ss)
                    (n + (length ms + scanned_count ss))
                    (λ k.
                      or_else_assoc (first k) _ _
                      ∙ rw (first_of, first_source, is_scan.finds k) refl)
                    (omega arith) merged,
              )
        | inr (e, r, other, failed) ↦
            let (done, merged) = build_sources-IsMerged ss st first n quiet readable h in
            let not_context : is_context_error
                  (wrap_two "%w: %q: %w" (sentinel err_scan_read_dir) e)
                ≡ false =
              readable _ e r in
            let nothing : directory_tools env data_dir s ≡ [] = rw (directory_tools, r) refl in
            rw (build_sources, quiet (data_dir ++ "tools" ∷ s ∷ []), failed, not_context)
              (
                done,
                IsMerged-ext Has _ _ _ (n + scanned_count ss) (n + (0 + scanned_count ss))
                    (λ k. rw (first_source, nothing) refl) (omega arith) merged,
              )
      ]

  -- What a build gives.
  pub record IsFlattened (built_at : ℕ) (sources : List String) (snap : EffectiveToolset)
      (shadows : List ShadowedTool) : Type 0 where
    pub built : (build_effective env data_dir sources built_at).0 ≡ ok (snap, shadows)
    pub sorted : IsSorted tool_name_of snap.tools
    pub distinct : DistinctKeys tool_name_of snap.tools
    pub first_wins : (k : String) → lookup_tool k snap ≡ first_source env data_dir sources k
    pub shadowed : Every (IsShadow Has (λ k. lookup_tool k snap)) shadows
    pub nothing_lost : length snap.tools + length shadows ≡ scanned_count sources

  -- When the context is never done and no error of reading a directory is one of the context's, a
  -- build succeeds: its tools are sorted by name, no name twice; a lookup gives the tool of the first
  -- source, in the configured order, whose directories have the name, and nothing when none has; every
  -- shadow is a manifest that its source has, with its name and version, and names the source and
  -- version of the tool that a lookup of its name gives; tools and shadows together are as many as the
  -- manifests of all the scans.
  pub build-IsFlattened :
      (sources : List String) (built_at : ℕ)
      → Quiet env
      → Readable env
      → (snap : EffectiveToolset) × (shadows : List ShadowedTool) × IsFlattened built_at sources
          snap shadows
  unfolding build_effective new_effective_toolset
  build-IsFlattened sources built_at quiet readable =
      let (done, merged) =
        build_sources-IsMerged sources empty_merge (λ k. none) 0 quiet readable
          (empty-IsMerged Has) in
      let st = (build_sources env data_dir sources empty_merge).0.1 in
      let looked : (k : String)
          → lookup_tool k (new_effective_toolset 0 built_at st.merged)
            ≡ find_key tool_name_of k st.merged =
        λ k. lookup_tool-new 0 built_at st.merged k merged.distinct in
      (
        new_effective_toolset 0 built_at st.merged,
        st.shadows,
        record {
          built = rw (build_effective, done) refl;
          sorted = sort_by-IsSorted tool_name_of st.merged;
          distinct = sort_by-DistinctKeys tool_name_of st.merged merged.distinct;
          first_wins = λ k. looked k ∙ merged.finds k;
          shadowed = IsShadow-ext Has _ _ st.shadows (λ k t f. looked k ∙ f) merged.shadowed;
          nothing_lost = omega (arith, merged.counted, length-sort_by tool_name_of st.merged);
        },
      )
