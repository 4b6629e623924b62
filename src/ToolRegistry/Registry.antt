-- ===== src/ToolRegistry/Registry.antt =====
-- core/pkg/toolregistry/registry.go. An entry is shared by pointer, so entries live in a store under
-- the order of their allocation; `Acquire` loads the pointer and adds to the count in two steps that
-- others can come between. Durations and instants are nanoseconds, and a correlation id the number
-- that it writes.
mod Handles
pub mod Recompute
pub mod Counted
use watchkeepers.Prelude.{
  update_at, ℕ, zero, suc, ◌+◌, ◌-◌, ◌%◌, ◌^◌, String, Bool, true, false, not, Option, none, some,
  List, [], ◌∷◌, ◌++◌, if◌then◌else◌, ◌==◌, string_eq, number_eq, leb, Map, put, empty_map, length,
  get_elem?, map, ℤ, pos, negsuc,
}
use watchkeepers.Go.Errors.{Error, sentinel, wrap, wrap_two, Result, ok, err}
use watchkeepers.Go.Text.{is_blank}
use watchkeepers.ToolRegistry.{ShadowedTool}
use watchkeepers.ToolRegistry.Loading.{FilePath}
use watchkeepers.ToolRegistry.Config.{SourceConfig, validate_sources}
use watchkeepers.ToolRegistry.Scan.{Env, LogLine}
use watchkeepers.ToolRegistry.Effective.{EffectiveToolset, new_effective_toolset, len}
use watchkeepers.ToolRegistry.Build.{build_effective}

abbrev pub err_invalid_data_dir : String
err_invalid_data_dir = "ErrInvalidDataDir"

abbrev pub err_invalid_grace_period : String
err_invalid_grace_period = "ErrInvalidGracePeriod"

-- The count is an int32 as its residue.
pub record RegistryEntry : Type 0 where
  pub snapshot : EffectiveToolset
  pub refcount : ℕ
  pub retired_at : Option ℕ

-- A call of `Acquire`: it has the entry, then counts on it, then is released.
pub data Stage : Type 0 where
  loaded : Stage
  held : Stage
  released : Stage

pub record Handle : Type 0 where
  pub entry : ℕ
  pub stage : Stage

pub record Registry : Type 0 where
  pub grace_period : ℕ
  pub data_dir : FilePath
  pub sources : List SourceConfig
  pub rev_counter : ℕ
  pub entries : List RegistryEntry
  pub current : ℕ
  pub retiring : List ℕ
  pub handles : List Handle

pub initial_registry : ℕ → String → List SourceConfig → ℕ → Registry
initial_registry grace data_dir sources now = record {
  grace_period = grace;
  data_dir = data_dir ∷ [];
  sources = sources;
  rev_counter = 0;
  entries =
      record { snapshot = new_effective_toolset 0 now []; refcount = 0; retired_at = none } ∷ [];
  current = 0;
  retiring = [];
  handles = [];
}

-- `data_dir` is one element of a path; `strings.TrimSpace` of it is empty exactly when it is blank.
unfoldable pub new_registry : String → ℤ → List SourceConfig → ℕ → Result Registry
unfolding initial_registry
new_registry data_dir (negsuc n) sources now =
    if is_blank data_dir
    then err (sentinel err_invalid_data_dir)
    else err (wrap "%w: %s" (sentinel err_invalid_grace_period))
new_registry data_dir (pos grace) sources now =
    if is_blank data_dir
    then err (sentinel err_invalid_data_dir)
    else elim (validate_sources sources) [
      | some e ↦ err e
      | none ↦ ok (initial_registry grace data_dir sources now)
    ]

-- `refcount.Add(1)` and `refcount.Add(-1)`.
abbrev pub add_one : RegistryEntry → RegistryEntry
add_one e = record e { refcount = (e.refcount + 1) % 2 ^ 32 }

abbrev pub sub_one : RegistryEntry → RegistryEntry
sub_one e = record e { refcount = (e.refcount + (2 ^ 32 - 1)) % 2 ^ 32 }

unfoldable pub snapshot : Registry → Option EffectiveToolset
snapshot r = elim (get_elem? r.entries r.current) [ none ↦ none | some e ↦ some e.snapshot ]

-- The first line of `Acquire`, then its second; a handle is its number.
unfoldable pub acquire_load : Registry → Registry
acquire_load r = record r {
  handles = r.handles ++ record { entry = r.current; stage = loaded } ∷ [];
}

set_stage : ℕ → Stage → Registry → Registry
set_stage h s r = record r { handles = update_at h (λ x. record x { stage = s }) r.handles }

count_on : ℕ → Stage → ℕ → Registry → Registry
unfolding set_stage
count_on e loaded h r = record (set_stage h held r) { entries = update_at e add_one r.entries }
count_on e held h r = r
count_on e released h r = r

-- `Acquire` counts once: the step of a handle that has counted is none of the code's and does nothing.
unfoldable pub acquire_add : ℕ → Registry → Registry
unfolding count_on
acquire_add h r = elim (get_elem? r.handles h) [ none ↦ r | some x ↦ count_on x.entry x.stage h r ]

count_off : ℕ → Stage → ℕ → Registry → Registry
unfolding set_stage
count_off e held h r = record (set_stage h released r) { entries = update_at e sub_one r.entries }
count_off e loaded h r = r
count_off e released h r = r

-- The callback that `Acquire` returns, which exists from its second step on.
unfoldable pub release_handle : ℕ → Registry → Registry
unfolding count_off
release_handle h r = elim (get_elem? r.handles h) [
  | none ↦ r
  | some x ↦ count_off x.entry x.stage h r
]

-- `now.Sub(e.retiredAt) >= GracePeriod`; the zero time of an entry that was not retired is long ago.
expired : ℕ → ℕ → RegistryEntry → Bool
expired grace now e = elim e.retired_at [ none ↦ true | some at ↦ leb (at + grace) now ]

entry_expired : Registry → ℕ → ℕ → Bool
unfolding expired
entry_expired r now id = elim (get_elem? r.entries id) [
  | none ↦ false
  | some e ↦ expired r.grace_period now e
]

pub kept_of : (ℕ → Bool) → List ℕ → List ℕ
kept_of drop [] = []
kept_of drop (id ∷ ids) = let rest = kept_of drop ids in if drop id then rest else id ∷ rest

-- The log line of each entry that is dropped is left out.
sweep_retiring : ℕ → Registry → Registry
unfolding kept_of entry_expired
sweep_retiring now r = record r { retiring = kept_of (entry_expired r now) r.retiring }

retire_entry : ℕ → ℕ → Registry → Registry
unfolding sweep_retiring
retire_entry old now r = sweep_retiring now (record r {
  entries = update_at old (λ e. record e { retired_at = some now }) r.entries;
  retiring = r.retiring ++ old ∷ [];
})

-- The part of `Recompute` under `recomputeMu` after a build that gave `snap`.
unfoldable pub swap_in : EffectiveToolset → ℕ → Registry → Registry
unfolding retire_entry
swap_in snap built_at r =
    let revision = r.rev_counter + 1 in
    let stamped : EffectiveToolset = record snap { revision = revision } in
    retire_entry r.current built_at (record r {
      rev_counter = revision;
      entries = r.entries ++ record { snapshot = stamped; refcount = 0; retired_at = none } ∷ [];
      current = length r.entries;
    })

-- Steps of goroutines in any order. A swap is that of a `Recompute` whose build gave its snapshot.
pub data RegistryOp : Type 0 where
  swap_op : EffectiveToolset → ℕ → RegistryOp
  load_op : RegistryOp
  add_op : ℕ → RegistryOp
  release_op : ℕ → RegistryOp

unfoldable pub registry_op : RegistryOp → Registry → Registry
unfolding swap_in acquire_load acquire_add release_handle
registry_op (swap_op snap now) r = swap_in snap now r
registry_op load_op r = acquire_load r
registry_op (add_op h) r = acquire_add h r
registry_op (release_op h) r = release_handle h r

unfoldable pub registry_ops : List RegistryOp → Registry → Registry
unfolding registry_op
registry_ops [] r = r
registry_ops (o ∷ os) r = registry_ops os (registry_op o r)
