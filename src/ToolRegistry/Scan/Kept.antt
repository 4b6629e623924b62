-- ===== src/ToolRegistry/Scan/Kept.antt =====
-- A scan of one source against what its directories hold, read in the order of their names.
use watchkeepers.Prelude.{
  ◌⊎◌, String, ◌≡◌, refl, sym, ◌∙◌, ap, true, false, none, some, List, [], ◌∷◌, ◌++◌, if◌then◌else◌,
  ◌==◌, string_eq, Bool-cases, Option-cases, inl, inr, empty_map, eq_iff, append-nil, append_assoc,
}
use watchkeepers.Go.Errors.{Error, Result, ok, err, Result-cases, sentinel, wrap_two, is_error}
use watchkeepers.ToolRegistry.{Manifest, err_scan_read_dir}
use watchkeepers.ToolRegistry.Loading.{FilePath, DirEntry}
use watchkeepers.ToolRegistry.Order.{
  sort_by, find_key, DistinctKeys, IsSorted, sort_by-IsSorted, find_key-sort_by,
  sort_by-DistinctKeys,
}
use watchkeepers.ToolRegistry.Keyed.{
  find_key-append, find_key-again, find_none-has_key, DistinctKeys-snoc,
}
use watchkeepers.ToolRegistry.Scan.{
  Env, ScanState, load, keep, scan_entry, scan_entries, scan_source_dir, manifest_name, entry_name,
  not_exist,
}

abbrev pub result_list : Result Manifest → List Manifest
result_list (ok m) = m ∷ []
result_list (err e) = []

module _ (env : Env) (source_dir : FilePath) (source_name : String) where
  -- The manifests that load, directory after directory.
  unfoldable pub loaded_from : List DirEntry → List Manifest
  unfolding load
  loaded_from [] = []
  loaded_from (e ∷ es) =
      (if e.is_dir then result_list (load env source_dir source_name e) else []) ++ loaded_from es

-- The state of the loop after the manifests of `done`: `seen` has the names, and a name finds what it
-- finds in `done`.
record IsTracked (st : ScanState) (done : List Manifest) : Type 0 where
  absent : (n : String) → st.seen n ≡ none → find_key manifest_name n st.manifests ≡ none
  present :
      (n d : String)
      → st.seen n ≡ some d
      → (m : Manifest) × (find_key manifest_name n st.manifests ≡ some m)
  finds : (n : String) → find_key manifest_name n st.manifests ≡ find_key manifest_name n done
  distinct : DistinctKeys manifest_name st.manifests

start : ScanState
start = record { seen = empty_map; manifests = []; logs = [] }

start-IsTracked : IsTracked start []
unfolding start
start-IsTracked = record {
  absent = λ n h. refl;
  present = λ n d h. absurd (cc h);
  finds = λ n. refl;
  distinct = tt;
}

module _ (env : Env) (source_dir : FilePath) (source_name : String) where
  keep-IsTracked :
      (dir : String) (m : Manifest) (st : ScanState) (done : List Manifest)
      → IsTracked st done
      → IsTracked (keep env source_dir source_name dir m (st.seen m.name) st) (done ++ m ∷ [])
  unfolding keep
  keep-IsTracked dir m st done h = elim (Option-cases (st.seen m.name)) [
    | inr (d, e) ↦
        let (old, found) = h.present m.name d e in
        rw e record {
          absent = h.absent;
          present = h.present;
          finds = λ n.
              h.finds n ∙ find_key-again manifest_name done m old (sym (h.finds m.name) ∙ found) n;
          distinct = h.distinct;
        }
    | inl e ↦ rw e record {
      absent = λ n g. elim (Bool-cases (m.name == n)) [
        | inl s ↦ absurd (cc (rw s at g))
        | inr s ↦
            find_key-append manifest_name n st.manifests (m ∷ [])
            ∙ rw (h.absent n (rw s at g), s) refl
      ];
      present = λ n d g. elim (Bool-cases (m.name == n)) [
        | inr s ↦
            let (old, found) = h.present n d (rw s at g) in
            (old, find_key-append manifest_name n st.manifests (m ∷ []) ∙ rw found refl)
        | inl s ↦
            let same : m.name ≡ n = (eq_iff m.name n).0 s in
            let fresh : find_key manifest_name n st.manifests ≡ none =
              ap (λ k. find_key manifest_name k st.manifests) (sym same) ∙ h.absent m.name e in
            (m, find_key-append manifest_name n st.manifests (m ∷ []) ∙ rw (fresh, s) refl)
      ];
      finds = λ n.
          find_key-append manifest_name n st.manifests (m ∷ [])
          ∙ (rw (h.finds n) refl ∙ sym (find_key-append manifest_name n done (m ∷ [])));
      distinct =
          DistinctKeys-snoc manifest_name st.manifests m h.distinct
            (find_none-has_key manifest_name m.name st.manifests (h.absent m.name e));
    }
  ]

  scan_entry-IsTracked :
      (e : DirEntry) (st : ScanState) (done : List Manifest)
      → IsTracked st done
      → IsTracked
          (scan_entry env source_dir source_name e st)
          (done ++ loaded_from env source_dir source_name (e ∷ []))
  unfolding scan_entry loaded_from
  scan_entry-IsTracked e st done h = elim (Bool-cases e.is_dir) [
    | inr f ↦ rw f (rw (append-nil done) h)
    | inl t ↦ rw t (elim (Result-cases (load env source_dir source_name e)) [
      | inl (x, l) ↦ rw l (
          rw (append-nil done) record {
            absent = h.absent;
            present = h.present;
            finds = h.finds;
            distinct = h.distinct;
          })
      | inr (m, l) ↦ rw l (keep-IsTracked e.name m st done h)
    ])
  ]

  scan_entries-IsTracked :
      (es : List DirEntry) (st : ScanState) (done : List Manifest)
      → ((p : FilePath) → env.ctx p ≡ none)
      → IsTracked st done
      → ((scan_entries env source_dir source_name es st).0 ≡ none)
        × IsTracked
            (scan_entries env source_dir source_name es st).1
            (done ++ loaded_from env source_dir source_name es)
  unfolding scan_entries loaded_from
  scan_entries-IsTracked [] st done quiet h = (refl, rw (append-nil done) h)
  scan_entries-IsTracked (e ∷ es) st done quiet h =
      let ih =
        scan_entries-IsTracked es (scan_entry env source_dir source_name e st) _ quiet
          (scan_entry-IsTracked e st done h) in
      let split : (done ++ loaded_from env source_dir source_name (e ∷ []))
            ++ loaded_from env source_dir source_name es
          ≡ done ++ loaded_from env source_dir source_name (e ∷ es) =
        append_assoc done _ _
        ∙ ap (λ l. done ++ l)
            (append_assoc (if e.is_dir then result_list (load env source_dir source_name e) else [])
              [] (loaded_from env source_dir source_name es)) in
      rw (scan_entries, quiet (source_dir ++ e.name ∷ [])) (ih.0, rw split at ih.1)

-- What a source's directories hold, in the order of their names; nothing where the source was not synced.
unfoldable pub directory_tools : Env → FilePath → String → List Manifest
unfolding loaded_from
directory_tools env data_dir source_name =
    let source_dir = data_dir ++ "tools" ∷ source_name ∷ [] in
    elim (env.disk.read_dir source_dir) [
      | err e ↦ []
      | ok entries ↦ loaded_from env source_dir source_name (sort_by entry_name entries)
    ]

-- A result of the scan: sorted, one manifest for each name, and that of the first directory.
pub record IsScanOf (ms found : List Manifest) : Type 0 where
  pub sorted : IsSorted manifest_name ms
  pub distinct : DistinctKeys manifest_name ms
  pub finds : (n : String) → find_key manifest_name n ms ≡ find_key manifest_name n found

abbrev pub Quiet : Env → Type 0
Quiet env = (p : FilePath) → env.ctx p ≡ none

-- The directory can be read, or is not there.
abbrev pub IsReadable : Env → FilePath → Type 0
IsReadable env dir =
    ((entries : List DirEntry) × (env.disk.read_dir dir ≡ ok entries))
    ⊎ ((e : Error) × (env.disk.read_dir dir ≡ err e) × (is_error e not_exist ≡ true))

-- When the context is never done: either the directory can be read or does not exist, and the scan gives
-- manifests sorted by name, no name twice, and each name with the manifest of the first directory, in the
-- order of the directories' names, whose manifest loads and has it, none where there is no directory; or
-- it cannot be read for another reason, and the scan gives that error in the wrapped ErrScanReadDir.
pub scan-IsScanOf :
    (env : Env) (data_dir : FilePath) (source_name : String)
    → Quiet env
    → ((ms : List Manifest) × IsReadable env (data_dir ++ "tools" ∷ source_name ∷ [])
        × ((scan_source_dir env data_dir source_name).0 ≡ ok ms)
        × IsScanOf ms (directory_tools env data_dir source_name))
      ⊎ ((e : Error) × (env.disk.read_dir (data_dir ++ "tools" ∷ source_name ∷ []) ≡ err e)
          × (is_error e not_exist ≡ false)
          × ((scan_source_dir env data_dir source_name).0
              ≡ err (wrap_two "%w: %q: %w" (sentinel err_scan_read_dir) e)))
unfolding scan_source_dir directory_tools start
scan-IsScanOf env data_dir source_name quiet =
    let source_dir = data_dir ++ "tools" ∷ source_name ∷ [] in
    elim (Result-cases (env.disk.read_dir source_dir)) [
      | inl (e, r) ↦ elim (Bool-cases (is_error e not_exist)) [
        | inl n ↦ inl (
          [],
          inr (e, r, n),
          rw (scan_source_dir, r, n) refl,
          rw (directory_tools, r) record { sorted = tt; distinct = tt; finds = λ n. refl },
        )
        | inr n ↦ inr (e, r, n, rw (scan_source_dir, r, n) refl)
      ]
      | inr (entries, r) ↦
          let (done, tracked) =
            scan_entries-IsTracked env source_dir source_name (sort_by entry_name entries) start []
              quiet start-IsTracked in
          let st = (scan_entries env source_dir source_name (sort_by entry_name entries) start).1 in
          inl (
            sort_by manifest_name st.manifests,
            inl (entries, r),
            rw (scan_source_dir, r, done) refl,
            rw (directory_tools, r)
                record {
                  sorted = sort_by-IsSorted manifest_name st.manifests;
                  distinct = sort_by-DistinctKeys manifest_name st.manifests tracked.distinct;
                  finds = λ n. find_key-sort_by manifest_name n st.manifests ∙ tracked.finds n;
                },
          )
    ]
