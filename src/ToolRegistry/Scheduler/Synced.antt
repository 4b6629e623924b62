-- ===== src/ToolRegistry/Scheduler/Synced.antt =====
-- A sync ends in one event, and in the good one only after the signature was verified.
use watchkeepers.Prelude.{
  ℕ, String, ◌≡◌, refl, ◌∙◌, Bool, true, false, ◌||◌, Option, none, some, List, [], ◌∷◌, ◌++◌, ◌==◌,
  string_eq, ◌↔◌, ◌⊎◌, inl, inr, Bool-cases, Option-cases, Every, Every-append, append_assoc,
}
use watchkeepers.Go.Errors.{Error, ok, is_error, Result-cases}
use watchkeepers.ToolRegistry.Loading.{FilePath}
use watchkeepers.ToolRegistry.Config.{SourceConfig, effective_branch}
use watchkeepers.ToolRegistry.Scan.{not_exist}
use watchkeepers.ToolRegistry.Scheduler.{
  SyncEnv, Scheduler, SyncEffect, mkdir_call, pull_call, clone_call, verify_call, synced_event,
  failed_event, PullOpts, CloneOpts, SourceSynced, safe_local_path, resolve_auth, emit_failure,
  emit_success, failed, verify_signature, sync_local, fetch, sync_git, sync_configured, sync_once,
  missing_error, signature_error,
}

abbrev pub is_event : SyncEffect → Bool
is_event (mkdir_call p) = false
is_event (pull_call o) = false
is_event (clone_call o) = false
is_event (verify_call n p) = false
is_event (synced_event e) = true
is_event (failed_event e) = true

abbrev pub NoEvent : List SyncEffect → Type 0
NoEvent = Every (λ e. is_event e ≡ false)

module _ (env : SyncEnv) (source_name : String) (src : SourceConfig) (correlation_id now : ℕ) where
  -- What the sync did before the verification, with the answers: nothing but a look at a directory of the
  -- operator's, or a pull of what is there, or a clone, with the credential.
  pub data IsFetched (local_path : FilePath) (auth : String) : List SyncEffect → Type 0 where
    found_local :
        (src.kind == "local" || src.kind == "hosted") ≡ true
        → env.stat local_path ≡ none
        → IsFetched local_path auth []
    was_pulled :
        (src.kind == "local" || src.kind == "hosted") ≡ false
        → env.mkdir_all local_path ≡ none
        → env.stat (local_path ++ ".git" ∷ []) ≡ none
        → env.pull (record { dir = local_path; auth = auth }) ≡ none
        → IsFetched local_path auth
            (mkdir_call local_path ∷ pull_call (record { dir = local_path; auth = auth }) ∷ [])
    was_cloned :
        (stat_err : Error)
        → (src.kind == "local" || src.kind == "hosted") ≡ false
        → env.mkdir_all local_path ≡ none
        → env.stat (local_path ++ ".git" ∷ []) ≡ some stat_err
        → is_error stat_err not_exist ≡ true
        → env.clone
            (record { url = src.url; branch = effective_branch src; dir = local_path; auth = auth })
          ≡ none
        → IsFetched local_path auth (
            mkdir_call local_path
            ∷ clone_call (record {
              url = src.url;
              branch = effective_branch src;
              dir = local_path;
              auth = auth;
            })
            ∷ [])

  abbrev pub synced_at_path : FilePath → SourceSynced
  synced_at_path local_path = record {
    source_name = source_name;
    synced_at = now;
    local_path = local_path;
    correlation_id = correlation_id;
  }

  pub record IsSynced (data_dir : FilePath) (out : Option Error × List SyncEffect) : Type 0 where
    pub local_path : FilePath
    pub auth : String
    pub fetching : List SyncEffect
    pub is_safe : safe_local_path data_dir source_name ≡ ok local_path
    pub credential : resolve_auth env src ≡ ok auth
    pub fetched : IsFetched local_path auth fetching
    pub is_verified : env.verify src.name local_path ≡ none
    pub effects :
        out.1
        ≡ fetching
          ++ verify_call src.name local_path ∷ synced_event (synced_at_path local_path) ∷ []
    pub returned : (out.0 ≡ none) ↔ (env.publish_synced (synced_at_path local_path) ≡ none)

  pub record IsFailed (out : Option Error × List SyncEffect) : Type 0 where
    pub done : List SyncEffect
    pub phase : String
    pub sync_err : Error
    pub returned : Error
    pub error : out.0 ≡ some returned
    pub effects :
        out.1 ≡ done ++ emit_failure env source_name src correlation_id now phase sync_err ∷ []
    pub quiet : NoEvent done

  failed-IsFailed :
      (phase : String) (sync_err returned : Error) (trace : List SyncEffect)
      → NoEvent trace
      → IsFailed (failed env source_name src correlation_id now phase sync_err returned trace)
  unfolding failed
  failed-IsFailed phase sync_err returned trace q = record {
    done = trace;
    phase = phase;
    sync_err = sync_err;
    returned = returned;
    error = refl;
    effects = refl;
    quiet = q;
  }

  emit_success-returned :
      (local_path : FilePath) (trace : List SyncEffect)
      → let out = emit_success env source_name src correlation_id now local_path trace in
        (out.1 ≡ trace ++ synced_event (synced_at_path local_path) ∷ [])
        × ((out.0 ≡ none) ↔ (env.publish_synced (synced_at_path local_path) ≡ none))
  unfolding emit_success
  emit_success-returned local_path trace =
      elim (Option-cases (env.publish_synced (synced_at_path local_path))) [
        | inl s ↦ (rw (emit_success, s) refl, rw (emit_success, s) (λ _. refl, λ _. refl))
        | inr (e, s) ↦ (
          rw (emit_success, s) refl,
          rw (emit_success, s) (λ h. absurd (cc h), λ h. absurd (cc h)),
        )
      ]

  Ends : FilePath → Option Error × List SyncEffect → Type 0
  Ends data_dir out = IsSynced data_dir out ⊎ IsFailed out

  verify_signature-Ends :
      (data_dir local_path : FilePath) (auth : String) (trace : List SyncEffect)
      → safe_local_path data_dir source_name ≡ ok local_path
      → resolve_auth env src ≡ ok auth
      → IsFetched local_path auth trace
      → NoEvent trace
      → Ends data_dir (verify_signature env source_name src correlation_id now local_path trace)
  unfolding verify_signature signature_error Ends
  verify_signature-Ends data_dir local_path auth trace safe cred got q =
      let called = trace ++ verify_call src.name local_path ∷ [] in
      elim (Option-cases (env.verify src.name local_path)) [
        | inr (e, v) ↦ inr (
            rw (verify_signature, v)
              (failed-IsFailed "signature" (signature_error e) _ called
                (Every-append _ trace _ q (tt, refl))))
        | inl v ↦
            let (sent, returned) = emit_success-returned local_path called in
            inl (
              rw (verify_signature, v)
                record {
                  local_path = local_path;
                  auth = auth;
                  fetching = trace;
                  is_safe = safe;
                  credential = cred;
                  fetched = got;
                  is_verified = v;
                  effects = sent ∙ append_assoc trace _ _;
                  returned = returned;
                })
      ]

  sync_local-Ends :
      (data_dir local_path : FilePath) (auth : String)
      → safe_local_path data_dir source_name ≡ ok local_path
      → resolve_auth env src ≡ ok auth
      → (src.kind == "local" || src.kind == "hosted") ≡ true
      → Ends data_dir (sync_local env source_name src correlation_id now local_path)
  unfolding sync_local missing_error Ends
  sync_local-Ends data_dir local_path auth safe cred kind =
      elim (Option-cases (env.stat local_path)) [
        | inl s ↦
            rw (sync_local, s)
              (verify_signature-Ends data_dir local_path auth [] safe cred (found_local kind s) tt)
        | inr (e, s) ↦ elim (Bool-cases (is_error e not_exist)) [
          | inl n ↦ inr (rw (sync_local, s, n) (failed-IsFailed "stat" (missing_error e) _ [] tt))
          | inr n ↦ inr (rw (sync_local, s, n) (failed-IsFailed "stat" e _ [] tt))
        ]
      ]

  fetch-Ends :
      (data_dir local_path : FilePath) (auth : String)
      → safe_local_path data_dir source_name ≡ ok local_path
      → resolve_auth env src ≡ ok auth
      → (src.kind == "local" || src.kind == "hosted") ≡ false
      → env.mkdir_all local_path ≡ none
      → Ends data_dir (
          fetch env source_name src correlation_id now local_path auth (mkdir_call local_path ∷ []))
  unfolding fetch Ends
  fetch-Ends data_dir local_path auth safe cred kind made =
      let pull_opts : PullOpts = record { dir = local_path; auth = auth } in
      let clone_opts : CloneOpts = record {
        url = src.url;
        branch = effective_branch src;
        dir = local_path;
        auth = auth;
      } in
      elim (Option-cases (env.stat (local_path ++ ".git" ∷ []))) [
        | inl s ↦ elim (Option-cases (env.pull pull_opts)) [
          | inl p ↦
              rw (fetch, s, p)
                (verify_signature-Ends data_dir local_path auth _ safe cred
                  (was_pulled kind made s p) ((tt, refl), refl))
          | inr (e, p) ↦ inr (
              rw (fetch, s, p)
                (failed-IsFailed "pull" e _ (mkdir_call local_path ∷ pull_call pull_opts ∷ [])
                  ((tt, refl), refl)))
        ]
        | inr (x, s) ↦ elim (Bool-cases (is_error x not_exist)) [
          | inr n ↦ inr (
              rw (fetch, s, n) (failed-IsFailed "stat" x _ (mkdir_call local_path ∷ []) (tt, refl)))
          | inl n ↦ elim (Option-cases (env.clone clone_opts)) [
            | inl p ↦
                rw (fetch, s, n, p)
                  (verify_signature-Ends data_dir local_path auth _ safe cred
                    (was_cloned x kind made s n p) ((tt, refl), refl))
            | inr (e, p) ↦ inr (
                rw (fetch, s, n, p)
                  (failed-IsFailed "clone" e _ (mkdir_call local_path ∷ clone_call clone_opts ∷ [])
                    ((tt, refl), refl)))
          ]
        ]
      ]

  sync_configured-Ends :
      (data_dir : FilePath)
      → Ends data_dir (sync_configured env source_name src correlation_id now data_dir)
  unfolding sync_configured sync_git Ends
  sync_configured-Ends data_dir = elim (Result-cases (safe_local_path data_dir source_name)) [
    | inl (e, p) ↦ inr (rw (sync_configured, p) (failed-IsFailed "path" e _ [] tt))
    | inr (local_path, p) ↦ elim (Result-cases (resolve_auth env src)) [
      | inl (e, a) ↦ inr (rw (sync_configured, p, a) (failed-IsFailed "auth" e _ [] tt))
      | inr (auth, a) ↦ elim (Bool-cases (src.kind == "local" || src.kind == "hosted")) [
        | inl k ↦ rw (sync_configured, p, a, k) (sync_local-Ends data_dir local_path auth p a k)
        | inr k ↦ elim (Option-cases (env.mkdir_all local_path)) [
          | inr (e, m) ↦ inr (
              rw (sync_configured, p, a, k)
                (rw (sync_git, m)
                  (failed-IsFailed "mkdir" e _ (mkdir_call local_path ∷ []) (tt, refl))))
          | inl m ↦
              rw (sync_configured, p, a, k)
                (rw (sync_git, m) (fetch-Ends data_dir local_path auth p a k m))
        ]
      ]
    ]
  ]

-- A sync of a configured source ends in exactly one event, its last effect. Either that is the event of a
-- failure, and then an error is returned; or it is that of success at the source's safe path, published
-- right after the verifier accepted what is there. Before the verifier, for a local or hosted source, there
-- was nothing but a look at the operator's directory that found it; for a git source, MkdirAll succeeded
-- for the directory, and then a pull, where the look at its .git found it, or a clone, where that did not
-- exist, succeeded with the resolved credential. The error is then nil exactly if the publish succeeded.
pub sync_once-ends :
    (env : SyncEnv) (s : Scheduler) (source_name : String) (src : SourceConfig)
    (correlation_id now : ℕ)
    → s.by_source source_name ≡ some src
    → IsSynced env source_name src correlation_id now s.data_dir
        (sync_once env s source_name correlation_id now)
      ⊎ IsFailed env source_name src correlation_id now
          (sync_once env s source_name correlation_id now)
unfolding sync_once Ends
sync_once-ends env s source_name src correlation_id now h =
    rw (sync_once, h) (sync_configured-Ends env source_name src correlation_id now s.data_dir)
