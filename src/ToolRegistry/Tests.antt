-- ===== src/ToolRegistry/Tests.antt =====
-- The tool registry with two sources that both have the tool `search`; the second has `notify` too.
use watchkeepers.Prelude.{
  String, Bytes, ◌≡◌, Bool-cases, refl, true, false, none, some, List, [], ◌∷◌, if◌then◌else◌, ◌==◌,
  string_eq, number_eq, pos, ◌⊎◌, inl, inr, empty_map, put, ◌∙◌,
}
use watchkeepers.Go.Text.{is_blank, trim_space}
use watchkeepers.ToolRegistry.Order.{sort_by}
use watchkeepers.Go.Errors.{wrap_two, Error, sentinel, text, Result, ok, err, is_error}
use watchkeepers.ToolRegistry.{Manifest, EffectiveTool, ShadowedTool, err_scan_read_dir}
use watchkeepers.ToolRegistry.Loading.{
  FilePath, DirEntry, Json, load_manifest_from_file, decode_manifest, validate_manifest,
  validate_dry_run_mode,
}
use watchkeepers.ToolRegistry.Config.{
  SourceConfig, validate_source, validate_sources, valid_source_name,
}
use watchkeepers.ToolRegistry.Scan.{Env, scan_source_dir, not_exist}
use watchkeepers.ToolRegistry.Scan.Kept.{
  loaded_from, directory_tools, Quiet, scan-IsScanOf, IsScanOf, IsReadable,
}
use watchkeepers.ToolRegistry.Effective.{EffectiveToolset, lookup_tool}
use watchkeepers.ToolRegistry.Build.{is_context_error}
use watchkeepers.ToolRegistry.Build.Flattened.{first_source}
use watchkeepers.ToolRegistry.Build.Precedence.{Readable, build-IsFlattened, IsFlattened}
use watchkeepers.ToolRegistry.Build.Valid.{IsServable, lookup_tool-IsServable}
use watchkeepers.ToolRegistry.Registry.{
  Registry, new_registry, RegistryOp, load_op, add_op, release_op, swap_op, registry_ops,
  initial_registry,
}
use watchkeepers.ToolRegistry.Registry.Counted.{IsCounted, registry-IsCounted}
use watchkeepers.ToolRegistry.Registry.Recompute.Served.{IsServed, recompute-IsServed}
use watchkeepers.ToolRegistry.Scheduler.{SyncEnv, Scheduler, new_scheduler, sync_once}
use watchkeepers.ToolRegistry.Scheduler.Synced.{IsSynced, IsFailed, sync_once-ends}

-- A decoder that reads the first byte as which of two manifests stands there.
abbrev manifest : String → Manifest
manifest n = record {
  name = n;
  version = "1.0.0";
  capabilities = "net" ∷ [];
  schema = "{}";
  source = "";
  signature = "";
  dry_run_mode = "none";
}

abbrev decode : Bytes → Result Manifest
decode [] = err (text "empty")
decode (b ∷ bs) =
    if b == 1
    then ok (manifest "search")
    else if b == 2
    then ok (manifest "notify")
    else err (text "bad")

abbrev json : Json
json = record {
  decode = decode;
  trailing = λ b. some (sentinel "io.EOF");
  unknown_field = λ e. false;
}

abbrev dir : String → DirEntry
dir n = record { name = n; is_dir = true }

abbrev last_of : String → FilePath → String
last_of d [] = d
last_of d (x ∷ xs) = last_of x xs

-- The directories of the first source, and of any other.
abbrev read_dir : FilePath → Result (List DirEntry)
read_dir p =
    if last_of "" p == "first"
    then ok (dir "search" ∷ [])
    else if last_of "" p == "second"
    then ok (dir "search" ∷ dir "notify" ∷ [])
    else err (sentinel not_exist)

abbrev tool_dir : FilePath → String
tool_dir (a ∷ b ∷ c ∷ d ∷ rest) = d
tool_dir p = ""

abbrev read_file : FilePath → Result Bytes
read_file p = if tool_dir p == "search" then ok (1 ∷ []) else ok (2 ∷ [])

abbrev env : Env
env = record {
  json = json;
  disk = record { read_dir = read_dir; read_file = read_file };
  ctx = λ p. none;
}

abbrev sources : List String
sources = "first" ∷ "second" ∷ []

quiet : Quiet env
quiet p = refl

readable : Readable env
unfolding is_context_error is_error
readable p e h = elim (Bool-cases (last_of "" p == "first")) [
  | inl a ↦ absurd (cc (rw a at h))
  | inr a ↦ elim (Bool-cases (last_of "" p == "second")) [
    | inl b ↦ absurd (cc (rw (a, b) at h))
    | inr b ↦ let same : sentinel not_exist ≡ e = cc (rw (a, b) at h) in rw (← same) refl
  ]
]

loads :
    load_manifest_from_file json env.disk ("data" ∷ "tools" ∷ "first" ∷ "search" ∷ []) "first"
    ≡ ok (record (manifest "search") { source = "first" })
unfolding load_manifest_from_file decode_manifest validate_manifest validate_dry_run_mode is_error
    is_blank trim_space
loads = refl

abbrev first_search : EffectiveTool
first_search = record {
  source = "first";
  manifest = record (manifest "search") { source = "first" };
}

is_first : first_source env ("data" ∷ []) sources "search" ≡ some first_search
unfolding first_source directory_tools loaded_from load_manifest_from_file decode_manifest
    validate_manifest validate_dry_run_mode is_error is_blank trim_space sort_by
is_first = refl

scan-IsScanOf_example :
    ((ms : List Manifest) × IsReadable env ("data" ∷ "tools" ∷ "second" ∷ [])
      × ((scan_source_dir env ("data" ∷ []) "second").0 ≡ ok ms)
      × IsScanOf ms (directory_tools env ("data" ∷ []) "second"))
    ⊎ ((e : Error) × (env.disk.read_dir ("data" ∷ "tools" ∷ "second" ∷ []) ≡ err e)
        × (is_error e not_exist ≡ false)
        × ((scan_source_dir env ("data" ∷ []) "second").0
            ≡ err (wrap_two "%w: %q: %w" (sentinel err_scan_read_dir) e)))
scan-IsScanOf_example = scan-IsScanOf env ("data" ∷ []) "second" quiet

build-IsFlattened_example :
    (snap : EffectiveToolset) × (shadows : List ShadowedTool) × IsFlattened env
      ("data" ∷ [])
      5
      sources
      snap
      shadows
build-IsFlattened_example = build-IsFlattened env ("data" ∷ []) sources 5 quiet readable

-- The same once more for what follows: a build and the tool that it gives under a name.
build :
    (snap : EffectiveToolset) × (shadows : List ShadowedTool) × IsFlattened env
      ("data" ∷ [])
      5
      sources
      snap
      shadows
build = build-IsFlattened env ("data" ∷ []) sources 5 quiet readable

found : lookup_tool "search" build.0 ≡ some first_search
found = build.2.first_wins "search" ∙ is_first

lookup_tool-IsServable_example : IsServable sources "search" first_search
lookup_tool-IsServable_example =
    lookup_tool-IsServable env ("data" ∷ []) sources 5 build.0 build.1 "search" first_search quiet
      readable build.2.built found

abbrev source : String → SourceConfig
source n = record {
  name = n;
  kind = "git";
  url = "https://example.org/tools";
  branch = "";
  pull_policy = "on-demand";
  cron_spec = "";
  auth_secret = "";
}

abbrev configured : List SourceConfig
configured = source "first" ∷ source "second" ∷ []

abbrev registry : Registry
registry = initial_registry 10 "data" configured 0

constructed : new_registry "data" (pos 10) configured 0 ≡ ok registry
unfolding new_registry validate_sources validate_source valid_source_name is_blank
constructed = refl

-- One goroutine loads the entry, another swaps in a build, and the first then counts on the old entry.
abbrev steps : List RegistryOp
steps =
    load_op ∷ swap_op build.0 5 ∷ add_op 0 ∷ load_op ∷ add_op 1 ∷ release_op 0 ∷ release_op 0 ∷ []

registry-IsCounted_example : IsCounted (registry_ops steps registry)
registry-IsCounted_example =
    registry-IsCounted "data" (pos 10) configured 0 registry steps constructed

recompute-IsServed_example :
    IsServed env
      (some (λ i. if i == 0 then some (text "full") else none))
      9
      (registry_ops steps registry)
recompute-IsServed_example =
    recompute-IsServed env (some (λ i. if i == 0 then some (text "full") else none)) 9
      (registry_ops steps registry) registry-IsCounted_example quiet readable

abbrev sync_env : SyncEnv
sync_env = record {
  stat = λ p. if last_of "" p == ".git" then some (sentinel not_exist) else none;
  mkdir_all = λ p. none;
  pull = λ o. none;
  clone = λ o. none;
  verify = λ n p. none;
  resolver = none;
  publish_synced = λ e. none;
  type_name = λ e. "error";
}

abbrev scheduler : Scheduler
scheduler = record {
  data_dir = "data" ∷ [];
  by_source = put "second" (source "second") (put "first" (source "first") empty_map);
}

scheduled : new_scheduler "data" configured ≡ ok scheduler
unfolding new_scheduler validate_sources validate_source valid_source_name is_blank
scheduled = refl

sync_once-ends_example :
    IsSynced sync_env "first"
      (source "first")
      7
      8
      ("data" ∷ [])
      (sync_once sync_env scheduler "first" 7 8)
    ⊎ IsFailed sync_env "first" (source "first") 7 8 (sync_once sync_env scheduler "first" 7 8)
sync_once-ends_example = sync_once-ends sync_env scheduler "first" (source "first") 7 8 refl
