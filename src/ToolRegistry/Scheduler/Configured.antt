-- ===== src/ToolRegistry/Scheduler/Configured.antt =====
-- A scheduler's sources are the validated ones, and their paths are safe.
use watchkeepers.Prelude.{
  String, ◌≡◌, refl, sym, ◌∙◌, ap, none, some, List, [], ◌∷◌, ◌==◌, string_eq, inl, inr, Bool-cases,
  Option-cases, Every, eq_iff, Map, put, empty_map,
}
use watchkeepers.Go.Errors.{ok}
use watchkeepers.Go.Text.{is_blank}
use watchkeepers.ToolRegistry.Config.{
  SourceConfig, valid_source_name, validate_source, validate_from, validate_sources,
}
use watchkeepers.ToolRegistry.Config.Accepted.{
  validate_from-Every, validate_source-valid_source_name, valid_source_name-plain,
}
use watchkeepers.ToolRegistry.Scheduler.{Scheduler, new_scheduler, index_sources, safe_local_path}

Configured : String → SourceConfig → Type 0
Configured n s = (validate_source s ≡ none) × (s.name ≡ n)

index_sources-Configured :
    (ss : List SourceConfig) (m : Map String SourceConfig)
    → Every (λ s. validate_source s ≡ none) ss
    → ((n : String) (s : SourceConfig) → m n ≡ some s → Configured n s)
    → (n : String) (s : SourceConfig) → index_sources ss m n ≡ some s
    → Configured n s
unfolding index_sources Configured
index_sources-Configured [] m h before n s e = before n s e
index_sources-Configured (x ∷ ss) m (rest, v) before n s e =
    index_sources-Configured ss (put x.name x m) rest step n s e
  where
    step : (k : String) (y : SourceConfig) → put x.name x m k ≡ some y → Configured k y
    step k y g = elim (Bool-cases (x.name == k)) [
      | inr d ↦ before k y (rw d at g)
      | inl d ↦ let same : x ≡ y = cc (rw d at g) in rw (← same) (v, (eq_iff x.name k).0 d)
    ]

-- Every source that a new scheduler knows under a name is a valid configuration of that name, and its
-- local path is the directory of that name right under the tools directory: the path check never fails.
new_scheduler-paths :
    (data_dir : String) (sources : List SourceConfig) (s : Scheduler) (n : String)
    (src : SourceConfig)
    → new_scheduler data_dir sources ≡ ok s
    → s.by_source n ≡ some src
    → (validate_source src ≡ none)
      × (src.name ≡ n)
      × (safe_local_path s.data_dir n ≡ ok (data_dir ∷ "tools" ∷ n ∷ []))
unfolding new_scheduler validate_sources safe_local_path Configured
new_scheduler-paths data_dir sources s n src h known = elim (Bool-cases (is_blank data_dir)) [
  | inl b ↦ absurd (cc (rw b at h))
  | inr b ↦ elim (Option-cases (validate_from sources empty_map)) [
    | inr (e, v) ↦ absurd (cc (rw (b, v) at h))
    | inl v ↦
        let same : record { data_dir = data_dir ∷ []; by_source = index_sources sources empty_map }
            ≡ s =
          cc (rw (b, v) at h) in
        let there : index_sources sources empty_map n ≡ some src =
          ap (λ x. x.by_source n) same ∙ known in
        let (valid, named) =
          index_sources-Configured sources empty_map (validate_from-Every sources empty_map v)
            (λ k y g. absurd (cc g)) n src there in
        let plain =
          valid_source_name-plain n
            (ap valid_source_name (sym named) ∙ validate_source-valid_source_name src valid) in
        (valid, named, rw (← same) (rw plain refl))
  ]
]
