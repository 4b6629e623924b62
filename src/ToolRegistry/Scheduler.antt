-- ===== src/ToolRegistry/Scheduler.antt =====
-- core/pkg/toolregistry/scheduler.go: SyncOnce, which the lock of its source serialises. The file
-- system, git, the verifier, the resolver and the publisher answer through `SyncEnv`; `type_name` is
-- the `%T` of an error. Clock readings are arguments.
pub mod Synced
pub mod Configured
use watchkeepers.Prelude.{
  ℕ, String, Bool, true, false, ◌||◌, Option, none, some, List, [], ◌∷◌, ◌++◌, if◌then◌else◌, ◌==◌,
  string_eq, Map, empty_map, put,
}
use watchkeepers.Go.Errors.{
  Error, sentinel, text, classed, wrap, classed_wrap, wrap_two, Result, ok, err, is_error,
}
use watchkeepers.Go.Text.{is_blank}
use watchkeepers.ToolRegistry.Loading.{FilePath}
use watchkeepers.ToolRegistry.Config.{SourceConfig, validate_sources, effective_branch}
use watchkeepers.ToolRegistry.Scan.{not_exist}
use watchkeepers.ToolRegistry.Registry.{err_invalid_data_dir}

abbrev pub err_unknown_source : String
err_unknown_source = "ErrUnknownSource"

abbrev pub err_unsafe_local_path : String
err_unsafe_local_path = "ErrUnsafeLocalPath"

abbrev pub err_empty_resolved_auth : String
err_empty_resolved_auth = "ErrEmptyResolvedAuth"

abbrev pub err_local_source_missing : String
err_local_source_missing = "ErrLocalSourceMissing"

abbrev pub err_signature_verification : String
err_signature_verification = "ErrSignatureVerification"

abbrev pub err_auth_resolution : String
err_auth_resolution = "ErrAuthResolution"

abbrev pub err_sync_clone : String
err_sync_clone = "ErrSyncClone"

abbrev pub err_sync_pull : String
err_sync_pull = "ErrSyncPull"

abbrev pub err_fs_stat : String
err_fs_stat = "ErrFSStat"

abbrev pub err_fs_mkdir : String
err_fs_mkdir = "ErrFSMkdir"

pub record CloneOpts : Type 0 where
  pub url : String
  pub branch : String
  pub dir : FilePath
  pub auth : String

pub record PullOpts : Type 0 where
  pub dir : FilePath
  pub auth : String

pub record SourceSynced : Type 0 where
  pub source_name : String
  pub synced_at : ℕ
  pub local_path : FilePath
  pub correlation_id : ℕ

pub record SourceFailed : Type 0 where
  pub source_name : String
  pub failed_at : ℕ
  pub error_type : String
  pub phase : String
  pub correlation_id : ℕ

-- An error is the answer of a call that failed, none its nil.
pub record SyncEnv : Type 0 where
  pub stat : FilePath → Option Error
  pub mkdir_all : FilePath → Option Error
  pub pull : PullOpts → Option Error
  pub clone : CloneOpts → Option Error
  pub verify : String → FilePath → Option Error
  pub resolver : Option (String → String → Result String)
  pub publish_synced : SourceSynced → Option Error
  pub type_name : Error → String

pub record Scheduler : Type 0 where
  pub data_dir : FilePath
  pub by_source : Map String SourceConfig

-- What a sync calls, in order, whatever the call answers.
pub data SyncEffect : Type 0 where
  mkdir_call : FilePath → SyncEffect
  pull_call : PullOpts → SyncEffect
  clone_call : CloneOpts → SyncEffect
  verify_call : String → FilePath → SyncEffect
  synced_event : SourceSynced → SyncEffect
  failed_event : SourceFailed → SyncEffect

index_sources : List SourceConfig → Map String SourceConfig → Map String SourceConfig
index_sources [] m = m
index_sources (s ∷ ss) m = index_sources ss (put s.name s m)

unfoldable pub new_scheduler : String → List SourceConfig → Result Scheduler
unfolding index_sources
new_scheduler data_dir sources =
    if is_blank data_dir
    then err (sentinel err_invalid_data_dir)
    else elim (validate_sources sources) [
      | some e ↦ err e
      | none ↦ ok record { data_dir = data_dir ∷ []; by_source = index_sources sources empty_map }
    ]

-- `errors.Unwrap` gives nothing for an error with two `%w`.
unfoldable pub leaf_error : Error → Error
leaf_error (wrap m e) = leaf_error e
leaf_error (classed_wrap c e) = leaf_error e
leaf_error (sentinel s) = sentinel s
leaf_error (text m) = text m
leaf_error (classed c) = classed c
leaf_error (wrap_two m e f) = wrap_two m e f

-- A configured name has no path separator, so it is one element of the path.
unfoldable pub safe_local_path : FilePath → String → Result FilePath
safe_local_path data_dir source_name =
    if source_name == "" || source_name == "." || source_name == ".."
    then err (wrap "%w: %q" (sentinel err_unsafe_local_path))
    else ok (data_dir ++ "tools" ∷ source_name ∷ [])

unfoldable pub resolve_auth : SyncEnv → SourceConfig → Result String
resolve_auth env src = if src.auth_secret == "" then ok "" else elim env.resolver [
  | none ↦ err (text "no resolver configured for source %q")
  | some resolve ↦ elim (resolve src.name src.auth_secret) [
    | err e ↦ err e
    | ok auth ↦
        if auth == ""
        then err (wrap "%w: source %q ref %q" (sentinel err_empty_resolved_auth))
        else ok auth
  ]
]

signature_error : Error → Error
signature_error e = wrap_two "%w: %w" (sentinel err_signature_verification) e

missing_error : Error → Error
missing_error e = wrap_two "%w: %q at %q: %w" (sentinel err_local_source_missing) e

module _ (env : SyncEnv) (source_name : String) (src : SourceConfig) (correlation_id now : ℕ) where
  -- The publisher's answer to a failure's event is only logged.
  pub emit_failure : String → Error → SyncEffect
  unfolding leaf_error
  emit_failure phase sync_err = failed_event record {
    source_name = source_name;
    failed_at = now;
    error_type = env.type_name (leaf_error sync_err);
    phase = phase;
    correlation_id = correlation_id;
  }

  emit_success : FilePath → List SyncEffect → Option Error × List SyncEffect
  emit_success local_path trace =
      let ev : SourceSynced = record {
        source_name = source_name;
        synced_at = now;
        local_path = local_path;
        correlation_id = correlation_id;
      } in
      let sent = trace ++ synced_event ev ∷ [] in
      elim (env.publish_synced ev) [
        | none ↦ (none, sent)
        | some e ↦ (some (wrap "toolregistry: publish synced: %w" e), sent)
      ]

  failed : String → Error → Error → List SyncEffect → Option Error × List SyncEffect
  unfolding emit_failure
  failed phase sync_err returned trace = (some returned, trace ++ emit_failure phase sync_err ∷ [])

  -- `verifySignature` and the two ends that follow it.
  verify_signature : FilePath → List SyncEffect → Option Error × List SyncEffect
  unfolding emit_success failed signature_error
  verify_signature local_path trace =
      let called = trace ++ verify_call src.name local_path ∷ [] in
      elim (env.verify src.name local_path) [
        | some e ↦ failed "signature" (signature_error e) (signature_error e) called
        | none ↦ emit_success local_path called
      ]

  sync_local : FilePath → Option Error × List SyncEffect
  unfolding verify_signature failed missing_error
  sync_local local_path = elim (env.stat local_path) [
    | some e ↦
        if is_error e not_exist
        then failed "stat" (missing_error e) (missing_error e) []
        else failed "stat" e (wrap_two "%w: %w" (sentinel err_fs_stat) e) []
    | none ↦ verify_signature local_path []
  ]

  -- From the test for `.git` on.
  fetch : FilePath → String → List SyncEffect → Option Error × List SyncEffect
  unfolding verify_signature failed
  fetch local_path auth trace =
      let pull_opts : PullOpts = record { dir = local_path; auth = auth } in
      let clone_opts : CloneOpts = record {
        url = src.url;
        branch = effective_branch src;
        dir = local_path;
        auth = auth;
      } in
      elim (env.stat (local_path ++ ".git" ∷ [])) [
        | none ↦
            let called = trace ++ pull_call pull_opts ∷ [] in
            elim (env.pull pull_opts) [
              | some e ↦ failed "pull" e (wrap_two "%w: %w" (sentinel err_sync_pull) e) called
              | none ↦ verify_signature local_path called
            ]
        | some stat_err ↦
            if is_error stat_err not_exist
            then elim (env.clone clone_opts) [
              | some e ↦
                  failed "clone" e (wrap_two "%w: %w" (sentinel err_sync_clone) e)
                    (trace ++ clone_call clone_opts ∷ [])
              | none ↦ verify_signature local_path (trace ++ clone_call clone_opts ∷ [])
            ]
            else failed "stat" stat_err (wrap_two "%w: %w" (sentinel err_fs_stat) stat_err) trace
      ]

  sync_git : FilePath → String → Option Error × List SyncEffect
  unfolding fetch failed
  sync_git local_path auth =
      let called = mkdir_call local_path ∷ [] in
      elim (env.mkdir_all local_path) [
        | some e ↦ failed "mkdir" e (wrap_two "%w: %w" (sentinel err_fs_mkdir) e) called
        | none ↦ fetch local_path auth called
      ]

  sync_configured : FilePath → Option Error × List SyncEffect
  unfolding sync_local sync_git failed
  sync_configured data_dir = elim (safe_local_path data_dir source_name) [
    | err e ↦ failed "path" e e []
    | ok local_path ↦ elim (resolve_auth env src) [
      | err e ↦ failed "auth" e (wrap_two "%w: %w" (sentinel err_auth_resolution) e) []
      | ok auth ↦
          if src.kind == "local" || src.kind == "hosted"
          then sync_local local_path
          else sync_git local_path auth
    ]
  ]

unfoldable pub sync_once : SyncEnv → Scheduler → String → ℕ → ℕ → Option Error × List SyncEffect
unfolding sync_configured
sync_once env s source_name correlation_id now = elim (s.by_source source_name) [
  | none ↦ (some (wrap "%w: %q" (sentinel err_unknown_source)), [])
  | some src ↦ sync_configured env source_name src correlation_id now s.data_dir
]
