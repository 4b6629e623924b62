-- ===== src/ToolRegistry/Loading/Checked.antt =====
-- What a manifest that loads is known to have.
use watchkeepers.Prelude.{
  String, Bytes, ◌≡◌, refl, Bool, true, false, ◌||◌, Option, none, some, List, [], ◌∷◌, ◌++◌,
  if◌then◌else◌, ◌==◌, string_eq, inl, inr, Bool-cases, Option-cases, Every, eq_iff,
}
use watchkeepers.Go.Errors.{Error, ok, is_error, Result-cases}
use watchkeepers.Go.Text.{is_blank, trim_space}
use watchkeepers.ToolRegistry.{Manifest}
use watchkeepers.ToolRegistry.Loading.{
  FilePath, Disk, Json, validate_dry_run_mode, missing, check_capabilities, is_nil,
  validate_manifest, decode_manifest, stamp, load_manifest_from_file,
}

pub record IsValid (m : Manifest) : Type 0 where
  pub has_name : is_blank m.name ≡ false
  pub has_version : is_blank m.version ≡ false
  pub has_capability : is_nil m.capabilities ≡ false
  pub capabilities : Every (λ c. is_blank c ≡ false) m.capabilities
  pub has_schema : (is_blank m.schema || trim_space m.schema == "null") ≡ false
  pub has_mode :
      (m.dry_run_mode == "ghost" || m.dry_run_mode == "scoped" || m.dry_run_mode == "none") ≡ true

check_capabilities-Every :
    (cs : List String) → check_capabilities cs ≡ none → Every (λ c. is_blank c ≡ false) cs
unfolding check_capabilities missing
check_capabilities-Every [] h = tt
check_capabilities-Every (c ∷ cs) h = elim (Bool-cases (is_blank c)) [
  | inl b ↦ absurd (cc (rw b at h))
  | inr b ↦ (check_capabilities-Every cs (rw b at h), b)
]

-- A guard that gave no error did not hold.
guard_passed :
    (b : Bool) (e : Error) (rest : Option Error)
    → (if b then some e else rest) ≡ none
    → (b ≡ false) × (rest ≡ none)
guard_passed true e rest h = absurd (cc h)
guard_passed false e rest h = (refl, h)

mode_accepted : (b : Bool) (e : Error) → (if b then none else some e) ≡ none → b ≡ true
mode_accepted true e h = refl
mode_accepted false e h = absurd (cc h)

or_none :
    (a b : Option Error) → (elim a [ some e ↦ some e | none ↦ b ]) ≡ none → (a ≡ none) × (b ≡ none)
or_none none b h = (refl, h)
or_none (some e) b h = absurd (cc h)

validate_manifest-IsValid : (m : Manifest) → validate_manifest m ≡ none → IsValid m
unfolding validate_manifest validate_dry_run_mode missing
validate_manifest-IsValid m h =
    let (name, h1) = guard_passed _ _ _ h in
    let (version, h2) = guard_passed _ _ _ h1 in
    let (some_capability, h3) = guard_passed _ _ _ h2 in
    let (capabilities, h4) = or_none _ _ h3 in
    let (schema, h5) = guard_passed _ _ _ h4 in
    let (mode, h6) = guard_passed _ _ _ h5 in
    record {
      has_name = name;
      has_version = version;
      has_capability = some_capability;
      capabilities = check_capabilities-Every m.capabilities capabilities;
      has_schema = schema;
      has_mode = mode_accepted _ _ h6;
    }

decode_manifest-IsValid :
    (json : Json) (raw : Bytes) (m : Manifest) → decode_manifest json raw ≡ ok m → IsValid m
unfolding decode_manifest
decode_manifest-IsValid json [] m h = absurd (cc h)
decode_manifest-IsValid json (b ∷ bs) m h = elim (Result-cases (json.decode (b ∷ bs))) [
  | inl (e, d) ↦ elim (Bool-cases (json.unknown_field e)) [
    | inl u ↦ absurd (cc (rw (decode_manifest, d, u) at h))
    | inr u ↦ absurd (cc (rw (decode_manifest, d, u) at h))
  ]
  | inr (m', d) ↦ elim (Option-cases (json.trailing (b ∷ bs))) [
    | inl t ↦ absurd (cc (rw (decode_manifest, d, t) at h))
    | inr (e, t) ↦ elim (Bool-cases (is_error e "io.EOF")) [
      | inr n ↦ absurd (cc (rw (decode_manifest, d, t, n) at h))
      | inl n ↦ elim (Option-cases (validate_manifest m')) [
        | inr (bad, v) ↦ absurd (cc (rw (decode_manifest, d, t, n, v) at h))
        | inl v ↦
            let same : m' ≡ m = cc (rw (decode_manifest, d, t, n, v) at h) in
            rw (← same) (validate_manifest-IsValid m' v)
      ]
    ]
  ]
]

stamp-IsValid :
    (source_name : String) (m m' : Manifest)
    → IsValid m
    → stamp source_name m ≡ ok m'
    → IsValid m' × (m'.source ≡ source_name)
unfolding stamp
stamp-IsValid source_name m m' v h = elim (Bool-cases (m.source == "")) [
  | inl e ↦
      let same : record m { source = source_name } ≡ m' = cc (rw e at h) in
      rw (← same) (
        record {
          has_name = v.has_name;
          has_version = v.has_version;
          has_capability = v.has_capability;
          capabilities = v.capabilities;
          has_schema = v.has_schema;
          has_mode = v.has_mode;
        },
        refl,
      )
  | inr e ↦ elim (Bool-cases (m.source == source_name)) [
    | inl s ↦
        let same : m ≡ m' = cc (rw (e, s) at h) in
        rw (← same) (v, (eq_iff m.source source_name).0 s)
    | inr s ↦ absurd (cc (rw (e, s) at h))
  ]
]

-- A manifest that loads has a name, a version, at least one capability and none of them blank, a schema
-- that is neither blank nor null, a dry-run mode of the closed set, and the given source, which is not
-- blank.
pub load_manifest_from_file-IsValid :
    (json : Json) (disk : Disk) (dir : FilePath) (source_name : String) (m : Manifest)
    → load_manifest_from_file json disk dir source_name ≡ ok m
    → IsValid m × (m.source ≡ source_name) × (is_blank source_name ≡ false)
unfolding load_manifest_from_file
load_manifest_from_file-IsValid json disk dir source_name m h =
    elim (Bool-cases (is_blank source_name)) [
      | inl b ↦ absurd (cc (rw b at h))
      | inr b ↦ elim (Result-cases (disk.read_file (dir ++ "manifest.json" ∷ []))) [
        | inl (e, r) ↦ absurd (cc (rw (b, r) at h))
        | inr (raw, r) ↦ elim (Result-cases (decode_manifest json raw)) [
          | inl (e, d) ↦ absurd (cc (rw (b, r, d) at h))
          | inr (m', d) ↦
              let (v, s) =
                stamp-IsValid source_name m' m (decode_manifest-IsValid json raw m' d)
                  (rw (b, r, d) at h) in
              (v, s, b)
        ]
      ]
    ]
