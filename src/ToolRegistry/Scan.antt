-- ===== src/ToolRegistry/Scan.antt =====
-- core/pkg/toolregistry/scanner.go: ScanSourceDir. `ctx` is what the context's `Err` gives just before
-- a path is read. A log line keeps its names.
pub mod Kept
pub mod Valid
use watchkeepers.Prelude.{
  ◌≡◌, String, Bool, true, false, Option, none, some, List, [], ◌∷◌, ◌++◌, if◌then◌else◌, ◌==◌,
  string_eq, Map, empty_map, put,
}
use watchkeepers.Go.Errors.{Error, sentinel, wrap_two, Result, ok, err, is_error}
use watchkeepers.ToolRegistry.{Manifest, err_scan_read_dir}
use watchkeepers.ToolRegistry.Loading.{FilePath, DirEntry, Disk, Json, load_manifest_from_file}
use watchkeepers.ToolRegistry.Order.{sort_by}

pub data LogLine : Type 0 where
  scan_failed : String → String → LogLine
  duplicate_manifest : String → String → String → String → LogLine
  source_failed : String → LogLine

pub record ScanState : Type 0 where
  pub seen : Map String String
  pub manifests : List Manifest
  pub logs : List LogLine

-- What the registry reads: the decoder, the disk and the context.
pub record Env : Type 0 where
  pub json : Json
  pub disk : Disk
  pub ctx : FilePath → Option Error

module _ (env : Env) (source_dir : FilePath) (source_name : String) where
  keep : String → Manifest → Option String → ScanState → ScanState
  keep dir m (some first_dir) st = record st {
    logs = st.logs ++ duplicate_manifest source_name m.name first_dir dir ∷ [];
  }
  keep dir m none st = record st {
    seen = put m.name dir st.seen;
    manifests = st.manifests ++ m ∷ [];
  }

  load : DirEntry → Result Manifest
  load e = load_manifest_from_file env.json env.disk (source_dir ++ e.name ∷ []) source_name

  -- The loop's body after its test of the context.
  scan_entry : DirEntry → ScanState → ScanState
  unfolding keep load
  scan_entry e st =
      if e.is_dir
      then elim (load e) [
        | err x ↦ record st { logs = st.logs ++ scan_failed source_name e.name ∷ [] }
        | ok m ↦ keep e.name m (st.seen m.name) st
      ]
      else st

  scan_entries : List DirEntry → ScanState → Option Error × ScanState
  unfolding scan_entry
  scan_entries [] st = (none, st)
  scan_entries (e ∷ es) st = elim (env.ctx (source_dir ++ e.name ∷ [])) [
    | some x ↦ (some x, st)
    | none ↦ scan_entries es (scan_entry e st)
  ]

abbrev pub manifest_name : Manifest → String
manifest_name m = m.name

abbrev pub entry_name : DirEntry → String
entry_name e = e.name

abbrev pub not_exist : String
not_exist = "fs.ErrNotExist"

unfoldable pub scan_source_dir : Env → FilePath → String → Result (List Manifest) × List LogLine
unfolding scan_entries sort_by
scan_source_dir env data_dir source_name =
    let source_dir = data_dir ++ "tools" ∷ source_name ∷ [] in
    elim (env.disk.read_dir source_dir) [
      | err e ↦
          if is_error e not_exist
          then (ok [], [])
          else (err (wrap_two "%w: %q: %w" (sentinel err_scan_read_dir) e), [])
      | ok entries ↦
          let start : ScanState = (record { seen = empty_map; manifests = []; logs = [] }) in
          let (cancelled, st) =
            scan_entries env source_dir source_name (sort_by entry_name entries) start in
          elim cancelled [
            | some e ↦ (err e, st.logs)
            | none ↦ (ok (sort_by manifest_name st.manifests), st.logs)
          ]
    ]
