-- ===== src/ToolRegistry/Registry/Counted.antt =====
-- The reference counts against the handles, and the revisions against the order of the entries.
use watchkeepers.Prelude.{
  length-update_at, get-update_at, update_at, ℕ, zero, suc, ◌+◌, ◌%◌, ◌^◌, ◌<◌, ◌≡◌, refl, sym, ◌∙◌,
  ap, String, none, some, List, [], ◌∷◌, ◌++◌, number_eq, Bool-cases, Option-cases, inl, inr, arith,
  length, get_elem?, Every, Every-append, length-append, ℤ, pos, negsuc,
}
use watchkeepers.Go.Errors.{ok}
use watchkeepers.Go.Text.{is_blank}
use watchkeepers.ToolRegistry.Config.{SourceConfig, validate_sources}
use watchkeepers.ToolRegistry.Effective.{EffectiveToolset, new_effective_toolset}
use watchkeepers.ToolRegistry.Registry.{
  RegistryEntry, Stage, loaded, held, released, Handle, Registry, new_registry, initial_registry,
  add_one, sub_one, acquire_load, acquire_add, release_handle, count_on, count_off, set_stage,
  swap_in, retire_entry, sweep_retiring, RegistryOp, swap_op, load_op, add_op, release_op,
  registry_op, registry_ops,
}
use watchkeepers.ToolRegistry.Registry.Handles.{
  holds, holds-other, held_count, held_count-set, held_count-append, held_count-beyond,
  in_range-set, holds_self, kept_of-Every, Every-below, handles-below, swapped,
}

pub record IsCounted (r : Registry) : Type 0 where
  pub counts :
      (id : ℕ) (e : RegistryEntry)
      → get_elem? r.entries id ≡ some e
      → e.refcount ≡ held_count id r.handles % 2 ^ 32
  pub revisions :
      (id : ℕ) (e : RegistryEntry) → get_elem? r.entries id ≡ some e → e.snapshot.revision ≡ id
  pub in_range : Every (λ h. h.entry < length r.entries) r.handles
  pub newest : suc r.current ≡ length r.entries
  pub counter : r.rev_counter ≡ r.current
  pub older : Every (λ id. id < r.current) r.retiring

-- The only entry of a list.
only_entry : (a e : RegistryEntry) (id : ℕ) → get_elem? (a ∷ []) id ≡ some e → (id ≡ 0) × (a ≡ e)
only_entry a e zero g = (refl, cc g)
only_entry a e (suc id) g = absurd (cc g)

initial_registry-IsCounted :
    (grace : ℕ) (data_dir : String) (sources : List SourceConfig) (now : ℕ)
    → IsCounted (initial_registry grace data_dir sources now)
unfolding initial_registry held_count new_effective_toolset
initial_registry-IsCounted grace data_dir sources now = record {
  counts = λ id e g. let (at, same) = only_entry _ e id g in sym (ap (λ x. x.refcount) same);
  revisions = λ id e g.
      let (at, same) = only_entry _ e id g in sym (ap (λ x. x.snapshot.revision) same) ∙ sym at;
  in_range = tt;
  newest = refl;
  counter = refl;
  older = tt;
}

-- A registry that is constructed is the initial one.
new_registry-initial :
    (data_dir : String) (grace : ℤ) (sources : List SourceConfig) (now : ℕ) (r : Registry)
    → new_registry data_dir grace sources now ≡ ok r
    → (g : ℕ) × (r ≡ initial_registry g data_dir sources now)
unfolding new_registry
new_registry-initial data_dir (negsuc n) sources now r h = elim (Bool-cases (is_blank data_dir)) [
  | inl b ↦ absurd (cc (rw b at h))
  | inr b ↦ absurd (cc (rw b at h))
]
new_registry-initial data_dir (pos g) sources now r h = elim (Bool-cases (is_blank data_dir)) [
  | inl b ↦ absurd (cc (rw b at h))
  | inr b ↦ elim (Option-cases (validate_sources sources)) [
    | inl v ↦ (g, cc (rw (b, v) at h))
    | inr (e, v) ↦ absurd (cc (rw (b, v) at h))
  ]
]

load-IsCounted : (r : Registry) → IsCounted r → IsCounted (acquire_load r)
unfolding acquire_load held_count
load-IsCounted r h = record {
  counts = λ id e g.
      h.counts id e g
      ∙ ap (λ n. n % 2 ^ 32)
          (omega (
            arith,
            held_count-append id r.handles (record { entry = r.current; stage = loaded } ∷ []),
          ));
  revisions = h.revisions;
  in_range = Every-append _ r.handles _ h.in_range (tt, omega (arith, h.newest));
  newest = h.newest;
  counter = h.counter;
  older = h.older;
}

-- A change of one handle's stage with the change of the entry's count that goes with it.
turned : ℕ → ℕ → Stage → (RegistryEntry → RegistryEntry) → Registry → Registry
turned i e s f r = record (set_stage i s r) { entries = update_at e f r.entries }

turned-IsCounted :
    (i : ℕ) (s : Stage) (f : RegistryEntry → RegistryEntry) (x : Handle) (r : Registry)
    → get_elem? r.handles i ≡ some x
    → ((e : RegistryEntry) → (f e).snapshot ≡ e.snapshot)
    → ((e : RegistryEntry) (id n k : ℕ)
        → x.entry ≡ id
        → e.refcount ≡ n % 2 ^ 32
        → k + holds id x.entry x.stage ≡ n + holds id x.entry s
        → (f e).refcount ≡ k % 2 ^ 32)
    → IsCounted r
    → IsCounted (turned i x.entry s f r)
unfolding turned set_stage
turned-IsCounted i s f x r at_i keeps counts h = record {
  counts = λ id e g.
      let (b, was, how) = get-update_at x.entry f r.entries id e g in
      let moved = held_count-set id i s r.handles x at_i in
      elim how [
        | inl (same, c) ↦
            ap (λ z. z.refcount) c
            ∙ counts b id (held_count id r.handles) _ same (h.counts id b was) moved
        | inr (other, c) ↦
            let same_count : held_count id r.handles
                ≡ held_count id (update_at i (λ y. record y { stage = s }) r.handles) =
              omega (
                arith,
                moved,
                holds-other id x.entry x.stage other,
                holds-other id x.entry s other,
              ) in
            ap (λ z. z.refcount) c ∙ (h.counts id b was ∙ ap (λ n. n % 2 ^ 32) same_count)
      ];
  revisions = λ id e g.
      let (b, was, how) = get-update_at x.entry f r.entries id e g in
      elim how [
        | inl (same, c) ↦
            ap (λ z. z.snapshot.revision) c
            ∙ (ap (λ z. z.revision) (keeps b) ∙ h.revisions id b was)
        | inr (other, c) ↦ ap (λ z. z.snapshot.revision) c ∙ h.revisions id b was
      ];
  in_range = rw (length-update_at x.entry f r.entries) (in_range-set _ i s r.handles h.in_range);
  newest = h.newest ∙ sym (length-update_at x.entry f r.entries);
  counter = h.counter;
  older = h.older;
}

count_on-IsCounted :
    (i : ℕ) (r : Registry) (x : Handle) (s : Stage)
    → x.stage ≡ s
    → get_elem? r.handles i ≡ some x
    → IsCounted r
    → IsCounted (count_on x.entry s i r)
unfolding count_on turned
count_on-IsCounted i r x loaded st e h =
    turned-IsCounted i held add_one x r e (λ b. refl)
      (λ b id n k same c moved.
        let one_more : k + 0 ≡ n + 1 = rw (st, holds_self id x.entry same) at moved in
        omega (arith, c, one_more))
      h
count_on-IsCounted i r x held st e h = h
count_on-IsCounted i r x released st e h = h

count_off-IsCounted :
    (i : ℕ) (r : Registry) (x : Handle) (s : Stage)
    → x.stage ≡ s
    → get_elem? r.handles i ≡ some x
    → IsCounted r
    → IsCounted (count_off x.entry s i r)
unfolding count_off turned
count_off-IsCounted i r x held st e h =
    turned-IsCounted i released sub_one x r e (λ b. refl)
      (λ b id n k same c moved.
        let one_less : k + 1 ≡ n + 0 = rw (st, holds_self id x.entry same) at moved in
        omega (arith, c, one_less))
      h
count_off-IsCounted i r x loaded st e h = h
count_off-IsCounted i r x released st e h = h

swap_in-IsCounted :
    (snap : EffectiveToolset) (now : ℕ) (r : Registry)
    → IsCounted r
    → IsCounted (swap_in snap now r)
unfolding swap_in retire_entry sweep_retiring
swap_in-IsCounted snap now r h =
    let fresh : RegistryEntry = record {
      snapshot = record snap { revision = r.rev_counter + 1 };
      refcount = 0;
      retired_at = none;
    } in
    let mark : RegistryEntry → RegistryEntry = λ e. record e { retired_at = some now } in
    let longer : length (update_at r.current mark (r.entries ++ fresh ∷ []))
        ≡ suc (length r.entries) =
      length-update_at r.current mark (r.entries ++ fresh ∷ [])
      ∙ (length-append r.entries (fresh ∷ []) ∙ omega arith) in
    record {
      counts = λ id e g.
          let (b, count, snapshot, how) = swapped r.entries fresh r.current now id e g in
          count ∙ elim how [
            | inl was ↦ h.counts id b was
            | inr (at, new) ↦
                ap (λ z. z.refcount) new
                ∙ sym (
                    ap (λ n. n % 2 ^ 32)
                      (ap (λ j. held_count j r.handles) at
                        ∙ held_count-beyond (length r.entries) r.handles h.in_range))
          ];
      revisions = λ id e g.
          let (b, count, snapshot, how) = swapped r.entries fresh r.current now id e g in
          ap (λ z. z.revision) snapshot ∙ elim how [
            | inl was ↦ h.revisions id b was
            | inr (at, new) ↦
                ap (λ z. z.snapshot.revision) new ∙ omega (arith, h.counter, h.newest, at)
          ];
      in_range = rw longer (
          handles-below (length r.entries) (suc (length r.entries)) r.handles (omega arith)
            h.in_range);
      newest = sym longer;
      counter = omega (arith, h.counter, h.newest);
      older =
          kept_of-Every (λ id. id < length r.entries) _ (r.retiring ++ r.current ∷ [])
            (Every-append _ r.retiring _
              (Every-below r.current (length r.entries) r.retiring (omega (arith, h.newest))
                h.older)
              (tt, omega (arith, h.newest)));
    }

op-IsCounted : (o : RegistryOp) (r : Registry) → IsCounted r → IsCounted (registry_op o r)
unfolding registry_op acquire_add release_handle
op-IsCounted (swap_op snap now) r h = swap_in-IsCounted snap now r h
op-IsCounted load_op r h = load-IsCounted r h
op-IsCounted (add_op i) r h = elim (Option-cases (get_elem? r.handles i)) [
  | inl e ↦ rw (acquire_add, e) h
  | inr (x, e) ↦ rw (acquire_add, e) (count_on-IsCounted i r x x.stage refl e h)
]
op-IsCounted (release_op i) r h = elim (Option-cases (get_elem? r.handles i)) [
  | inl e ↦ rw (release_handle, e) h
  | inr (x, e) ↦ rw (release_handle, e) (count_off-IsCounted i r x x.stage refl e h)
]

ops-IsCounted : (os : List RegistryOp) (r : Registry) → IsCounted r → IsCounted (registry_ops os r)
unfolding registry_ops
ops-IsCounted [] r h = h
ops-IsCounted (o ∷ os) r h = ops-IsCounted os (registry_op o r) (op-IsCounted o r h)

-- After any steps of any goroutines on a new registry: the count of every entry that was ever installed
-- is, in 32 bits, the number of the handles that were acquired on it and not released; the entries'
-- revisions are 0, 1, 2 and so on in the order in which they were installed, the last is current and
-- its revision is the counter; every entry in the retiring list is older than it.
pub registry-IsCounted :
    (data_dir : String) (grace : ℤ) (sources : List SourceConfig) (now : ℕ) (r : Registry)
    (os : List RegistryOp)
    → new_registry data_dir grace sources now ≡ ok r
    → IsCounted (registry_ops os r)
registry-IsCounted data_dir grace sources now r os h =
    let (g, same) = new_registry-initial data_dir grace sources now r h in
    ops-IsCounted os r (rw same (initial_registry-IsCounted g data_dir sources now))
