-- ===== src/ToolRegistry/Scan/Valid.antt =====
-- Every manifest of a source's directories is valid and has the source's name.
use watchkeepers.Prelude.{
  String, ◌≡◌, List, [], ◌∷◌, ◌++◌, if◌then◌else◌, string_eq, inl, inr, Bool-cases, Every,
  Every-append,
}
use watchkeepers.Go.Errors.{Result-cases}
use watchkeepers.ToolRegistry.{Manifest}
use watchkeepers.ToolRegistry.Loading.{FilePath, DirEntry}
use watchkeepers.ToolRegistry.Loading.Checked.{IsValid, load_manifest_from_file-IsValid}
use watchkeepers.ToolRegistry.Order.{sort_by}
use watchkeepers.ToolRegistry.Scan.{Env, entry_name, load}
use watchkeepers.ToolRegistry.Scan.Kept.{directory_tools, loaded_from, result_list}

abbrev pub FromSource : String → Manifest → Type 0
FromSource src m = IsValid m × (m.source ≡ src)

loaded_from-Every :
    (env : Env) (source_dir : FilePath) (source_name : String) (es : List DirEntry)
    → Every (FromSource source_name) (loaded_from env source_dir source_name es)
unfolding loaded_from load
loaded_from-Every env source_dir source_name [] = tt
loaded_from-Every env source_dir source_name (e ∷ es) =
    Every-append (FromSource source_name) here _ are_valid
      (loaded_from-Every env source_dir source_name es)
  where
    here : List Manifest
    here = if e.is_dir then result_list (load env source_dir source_name e) else []

    are_valid : Every (FromSource source_name) here
    are_valid = elim (Bool-cases e.is_dir) [
      | inr d ↦ rw (here, d) tt
      | inl d ↦ elim (Result-cases (load env source_dir source_name e)) [
        | inl (x, l) ↦ rw (here, d, l) tt
        | inr (m, l) ↦
            let (v, s, b) = load_manifest_from_file-IsValid env.json env.disk _ source_name m l in
            rw (here, d, l) (tt, (v, s))
      ]
    ]

pub directory_tools-Every :
    (env : Env) (data_dir : FilePath) (source_name : String)
    → Every (FromSource source_name) (directory_tools env data_dir source_name)
unfolding directory_tools
directory_tools-Every env data_dir source_name =
    let source_dir = data_dir ++ "tools" ∷ source_name ∷ [] in
    elim (Result-cases (env.disk.read_dir source_dir)) [
      | inl (e, r) ↦ rw (directory_tools, r) tt
      | inr (entries, r) ↦
          rw (directory_tools, r)
            (loaded_from-Every env source_dir source_name (sort_by entry_name entries))
    ]
