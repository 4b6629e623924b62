-- ===== src/ToolRegistry.antt =====
-- core/pkg/toolregistry: the tools that the configured sources contribute. ToolRegistry/Loading
-- is manifest.go, ToolRegistry/Config the validation of config.go, ToolRegistry/Scan scanner.go up to
-- ScanSourceDir, ToolRegistry/Effective effective.go, ToolRegistry/Build the rest of scanner.go, and
-- ToolRegistry/Registry registry.go, and ToolRegistry/Scheduler scheduler.go.
pub mod Order
pub mod Keyed
pub mod Loading
pub mod Scan
pub mod Effective
pub mod Build
pub mod Config
pub mod Registry
pub mod Scheduler
mod Tests
use watchkeepers.Prelude.{ℕ, String, List, Option}
use watchkeepers.Go.Errors.{Error}

-- The schema is the text of a JSON value.
pub record Manifest : Type 0 where
  pub name : String
  pub version : String
  pub capabilities : List String
  pub schema : String
  pub source : String
  pub signature : String
  pub dry_run_mode : String

pub record EffectiveTool : Type 0 where
  pub source : String
  pub manifest : Manifest

pub record ShadowedTool : Type 0 where
  pub tool_name : String
  pub winner_source : String
  pub winner_version : String
  pub shadowed_source : String
  pub shadowed_version : String

abbrev pub err_invalid_source_name : String
err_invalid_source_name = "ErrInvalidSourceName"

abbrev pub err_manifest_missing_required : String
err_manifest_missing_required = "ErrManifestMissingRequired"

abbrev pub err_invalid_dry_run_mode : String
err_invalid_dry_run_mode = "ErrInvalidDryRunMode"

abbrev pub err_manifest_parse : String
err_manifest_parse = "ErrManifestParse"

abbrev pub err_manifest_unknown_field : String
err_manifest_unknown_field = "ErrManifestUnknownField"

abbrev pub err_manifest_source_collision : String
err_manifest_source_collision = "ErrManifestSourceCollision"

abbrev pub err_scan_read_dir : String
err_scan_read_dir = "ErrScanReadDir"
