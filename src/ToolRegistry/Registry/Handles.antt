-- ===== src/ToolRegistry/Registry/Handles.antt =====
-- Handles counted on an entry, and what an update, an append and a sweep do to lists.
use watchkeepers.Prelude.{
  get-update_at, get-snoc, update_at, ℕ, zero, suc, ◌+◌, ◌<◌, ◌≤◌, ◌≡◌, ◌≢◌, ◌⊎◌, refl, ap, Bool,
  some, List, [], ◌∷◌, ◌++◌, if◌then◌else◌, ◌==◌, number_eq, Bool-cases, inl, inr, arith, length,
  get_elem?, Every,
}
use watchkeepers.ToolRegistry.Registry.{
  RegistryEntry, Stage, loaded, held, released, Handle, kept_of,
}

abbrev pub holds : ℕ → ℕ → Stage → ℕ
holds id e held = if e == id then 1 else 0
holds id e loaded = 0
holds id e released = 0

pub holds-below : (id e : ℕ) (s : Stage) → e < id → holds id e s ≡ 0
holds-below id e held h = ground arith
holds-below id e loaded h = refl
holds-below id e released h = refl

pub holds-other : (id e : ℕ) (s : Stage) → e ≢ id → holds id e s ≡ 0
holds-other id e held h = ground arith
holds-other id e loaded h = refl
holds-other id e released h = refl

-- How many handles count on an entry.
unfoldable pub held_count : ℕ → List Handle → ℕ
held_count id [] = 0
held_count id (h ∷ hs) = holds id h.entry h.stage + held_count id hs

pub held_count-set :
    (id i : ℕ) (s : Stage) (hs : List Handle) (x : Handle)
    → get_elem? hs i ≡ some x
    → held_count id (update_at i (λ y. record y { stage = s }) hs) + holds id x.entry x.stage
      ≡ held_count id hs + holds id x.entry s
unfolding held_count
held_count-set id i s [] x h = absurd (cc h)
held_count-set id zero s (y ∷ hs) x h = let same : y ≡ x = cc h in rw same (omega arith)
held_count-set id (suc i) s (y ∷ hs) x h = omega (arith, held_count-set id i s hs x h)

pub held_count-append :
    (id : ℕ) (hs ks : List Handle) → held_count id (hs ++ ks) ≡ held_count id hs + held_count id ks
unfolding held_count
held_count-append id [] ks = omega arith
held_count-append id (h ∷ hs) ks = omega (arith, held_count-append id hs ks)

-- No handle counts on an entry that is not there.
pub held_count-beyond :
    (n : ℕ) (hs : List Handle) → Every (λ h. h.entry < n) hs → held_count n hs ≡ 0
unfolding held_count
held_count-beyond n [] h = refl
held_count-beyond n (x ∷ hs) (rest, b) =
    omega (arith, held_count-beyond n hs rest, holds-below n x.entry x.stage b)

pub in_range-set :
    (n i : ℕ) (s : Stage) (hs : List Handle)
    → Every (λ h. h.entry < n) hs
    → Every (λ h. h.entry < n) (update_at i (λ x. record x { stage = s }) hs)
in_range-set n i s [] h = tt
in_range-set n zero s (x ∷ hs) (rest, b) = (rest, b)
in_range-set n (suc i) s (x ∷ hs) (rest, b) = (in_range-set n i s hs rest, b)

pub holds_self : (id e : ℕ) → e ≡ id → holds id e held ≡ 1
holds_self id e h = ground arith

pub kept_of-Every :
    (Q : ℕ → Type 0) (drop : ℕ → Bool) (ids : List ℕ) → Every Q ids → Every Q (kept_of drop ids)
unfolding kept_of
kept_of-Every Q drop [] h = tt
kept_of-Every Q drop (id ∷ ids) (rest, q) = elim (Bool-cases (drop id)) [
  | inl d ↦ rw d (kept_of-Every Q drop ids rest)
  | inr d ↦ rw d (kept_of-Every Q drop ids rest, q)
]

pub Every-below :
    (n n' : ℕ) (ids : List ℕ) → n ≤ n' → Every (λ id. id < n) ids → Every (λ id. id < n') ids
Every-below n n' [] le h = tt
Every-below n n' (id ∷ ids) le (rest, b) = (Every-below n n' ids le rest, omega arith)

pub handles-below :
    (n n' : ℕ) (hs : List Handle)
    → n ≤ n'
    → Every (λ h. h.entry < n) hs
    → Every (λ h. h.entry < n') hs
handles-below n n' [] le h = tt
handles-below n n' (x ∷ hs) le (rest, b) = (handles-below n n' hs le rest, omega arith)

-- An entry after a swap is one from before, or the new one, but for its time of retirement.
pub swapped :
    (xs : List RegistryEntry) (y : RegistryEntry) (old now id : ℕ) (e : RegistryEntry)
    → get_elem? (update_at old (λ a. record a { retired_at = some now }) (xs ++ y ∷ [])) id ≡ some e
    → (b : RegistryEntry) × (e.refcount ≡ b.refcount)
      × (e.snapshot ≡ b.snapshot)
      × ((get_elem? xs id ≡ some b) ⊎ ((id ≡ length xs) × (b ≡ y)))
swapped xs y old now id e h =
    let (b, was, how) =
      get-update_at old (λ a. record a { retired_at = some now }) (xs ++ y ∷ []) id e h in
    elim how [
      | inl (same, c) ↦ (b, ap (λ z. z.refcount) c, ap (λ z. z.snapshot) c, get-snoc xs y id b was)
      | inr (other, c) ↦ (b, ap (λ z. z.refcount) c, ap (λ z. z.snapshot) c, get-snoc xs y id b was)
    ]
