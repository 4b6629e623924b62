-- ===== src/ToolRegistry/Build/Valid.antt =====
-- Every tool of a snapshot is a valid manifest of a configured source.
use watchkeepers.Prelude.{
  ℕ, String, ◌≡◌, refl, sym, ◌∙◌, ap, true, some, List, [], ◌∷◌, string_eq, inl, inr, Option-cases,
  ==_refl, arith,
}
use watchkeepers.Go.Errors.{ok}
use watchkeepers.ToolRegistry.{EffectiveTool, ShadowedTool}
use watchkeepers.ToolRegistry.Loading.{FilePath}
use watchkeepers.ToolRegistry.Loading.Checked.{IsValid}
use watchkeepers.ToolRegistry.Order.{find_key, has_key}
use watchkeepers.ToolRegistry.Keyed.{find_key-Every}
use watchkeepers.ToolRegistry.Scan.{Env, manifest_name}
use watchkeepers.ToolRegistry.Scan.Valid.{FromSource, directory_tools-Every}
use watchkeepers.ToolRegistry.Scan.Kept.{directory_tools, Quiet}
use watchkeepers.ToolRegistry.Effective.{EffectiveToolset, lookup_tool}
use watchkeepers.ToolRegistry.Build.{build_effective}
use watchkeepers.ToolRegistry.Build.Flattened.{first_source}
use watchkeepers.ToolRegistry.Build.Precedence.{Readable, build-IsFlattened}

pub record IsServable (sources : List String) (name : String) (t : EffectiveTool) : Type 0 where
  pub named : t.manifest.name ≡ name
  pub stamped : t.manifest.source ≡ t.source
  pub valid : IsValid t.manifest
  pub configured : has_key (λ s. s) t.source sources ≡ true

first_source-IsServable :
    (env : Env) (data_dir : FilePath) (sources : List String) (name : String) (t : EffectiveTool)
    → first_source env data_dir sources name ≡ some t
    → IsServable sources name t
unfolding first_source
first_source-IsServable env data_dir [] name t h = absurd (cc h)
first_source-IsServable env data_dir (s ∷ ss) name t h =
    elim (Option-cases (find_key manifest_name name (directory_tools env data_dir s))) [
      | inl n ↦
          let ih = first_source-IsServable env data_dir ss name t (rw (first_source, n) at h) in
          record {
            named = ih.named;
            stamped = ih.stamped;
            valid = ih.valid;
            configured = ground (arith, ih.configured);
          }
      | inr (m, f) ↦
          let ((valid, stamped), named) =
            find_key-Every manifest_name (FromSource s) name _ m
              (directory_tools-Every env data_dir s) f in
          let same : record { source = s; manifest = m } ≡ t = cc (rw (first_source, f) at h) in
          rw (← same) record {
            named = named;
            stamped = stamped;
            valid = valid;
            configured = rw (==_refl s) refl;
          }
    ]

-- When the context is never done and no error of reading a directory is one of the context's, a tool
-- that a lookup finds in the snapshot of a build has the name that was looked up, comes from a configured
-- source, which its manifest names too, and its manifest is a valid one.
pub lookup_tool-IsServable :
    (env : Env) (data_dir : FilePath) (sources : List String) (built_at : ℕ)
    (snap : EffectiveToolset) (shadows : List ShadowedTool) (name : String) (t : EffectiveTool)
    → Quiet env
    → Readable env
    → (build_effective env data_dir sources built_at).0 ≡ ok (snap, shadows)
    → lookup_tool name snap ≡ some t
    → IsServable sources name t
lookup_tool-IsServable env data_dir sources built_at snap shadows name t quiet readable built
      found =
    let (snap', shadows', flat) = build-IsFlattened env data_dir sources built_at quiet readable in
    let same : snap' ≡ snap = cc (flat.built, built) in
    first_source-IsServable env data_dir sources name t
      (sym (flat.first_wins name) ∙ (ap (lookup_tool name) same ∙ found))
