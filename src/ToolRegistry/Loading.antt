-- ===== src/ToolRegistry/Loading.antt =====
-- core/pkg/toolregistry/manifest.go. `encoding/json` is the parameter `json`; a path is the list of
-- the elements that `filepath.Join` takes.
pub mod Checked
use watchkeepers.Prelude.{
  ℕ, ◌+◌, String, Bytes, Bool, true, false, ◌||◌, Option, none, some, List, [], ◌∷◌, ◌++◌,
  if◌then◌else◌, ◌==◌, string_eq,
}
use watchkeepers.Go.Errors.{Error, sentinel, wrap, wrap_two, Result, ok, err, is_error}
use watchkeepers.Go.Text.{is_blank, trim_space}
use watchkeepers.ToolRegistry.{
  Manifest, err_invalid_source_name, err_manifest_missing_required, err_invalid_dry_run_mode,
  err_manifest_parse, err_manifest_unknown_field, err_manifest_source_collision,
}

abbrev pub FilePath : Type 0
FilePath = List String

pub record DirEntry : Type 0 where
  pub name : String
  pub is_dir : Bool

-- The `FS` that the registry reads. A build reads a path once, so a disk is what it finds there.
pub record Disk : Type 0 where
  pub read_dir : FilePath → Result (List DirEntry)
  pub read_file : FilePath → Result Bytes

-- A decoder over a buffer, strict on unknown fields: `decode` is the first value, `trailing` the error
-- of the second call (none is nil), `unknown_field` whether a message has "unknown field" in it.
pub record Json : Type 0 where
  pub decode : Bytes → Result Manifest
  pub trailing : Bytes → Option Error
  pub unknown_field : Error → Bool

unfoldable pub validate_dry_run_mode : String → Option Error
validate_dry_run_mode m =
    if m == "ghost" || m == "scoped" || m == "none"
    then none
    else some (wrap "%w: %q" (sentinel err_invalid_dry_run_mode))

missing : String → Option Error
missing what = some (wrap what (sentinel err_manifest_missing_required))

check_capabilities : List String → Option Error
unfolding missing
check_capabilities [] = none
check_capabilities (c ∷ cs) =
    let rest = check_capabilities cs in if is_blank c then missing "%w: capabilities[%d]" else rest

pub is_nil : List String → Bool
is_nil [] = true
is_nil (c ∷ cs) = false

unfoldable pub validate_manifest : Manifest → Option Error
unfolding missing check_capabilities is_nil
validate_manifest m =
    if is_blank m.name
    then missing "%w: name"
    else if is_blank m.version
    then missing "%w: version"
    else if is_nil m.capabilities
    then missing "%w: capabilities"
    else elim (check_capabilities m.capabilities) [
      | some e ↦ some e
      | none ↦
          if is_blank m.schema || trim_space m.schema == "null"
          then missing "%w: schema"
          else if is_blank m.dry_run_mode
          then missing "%w: dry_run_mode"
          else validate_dry_run_mode m.dry_run_mode
    ]

unfoldable pub decode_manifest : Json → Bytes → Result Manifest
decode_manifest json [] = err (wrap "%w: empty input" (sentinel err_manifest_parse))
decode_manifest json (b ∷ bs) = elim (json.decode (b ∷ bs)) [
  | err e ↦
      if json.unknown_field e
      then err (
          wrap_two "%w: %w: %w" (sentinel err_manifest_unknown_field)
            (wrap_two "" (sentinel err_manifest_parse) e))
      else err (wrap_two "%w: %w" (sentinel err_manifest_parse) e)
  | ok m ↦ elim (json.trailing (b ∷ bs)) [
    | none ↦ err (wrap "%w: trailing document" (sentinel err_manifest_parse))
    | some e ↦
        if is_error e "io.EOF"
        then elim (validate_manifest m) [ some bad ↦ err bad | none ↦ ok m ]
        else err (wrap_two "%w: trailing input: %w" (sentinel err_manifest_parse) e)
  ]
]

stamp : String → Manifest → Result Manifest
stamp source_name m =
    if m.source == ""
    then ok (record m { source = source_name })
    else if m.source == source_name
    then ok m
    else err (wrap "%w: on-disk %q != stamping %q" (sentinel err_manifest_source_collision))

unfoldable pub load_manifest_from_file : Json → Disk → FilePath → String → Result Manifest
unfolding stamp
load_manifest_from_file json disk dir source_name =
    if is_blank source_name
    then err (sentinel err_invalid_source_name)
    else elim (disk.read_file (dir ++ "manifest.json" ∷ [])) [
      | err e ↦ err (wrap_two "%w: %w" (sentinel err_manifest_parse) e)
      | ok raw ↦ elim (decode_manifest json raw) [ err e ↦ err e | ok m ↦ stamp source_name m ]
    ]
