-- ===== src/Capability/Reaper.antt =====
-- The reaper's sweep against the set of entries that it should leave.
use watchkeepers.Prelude.{
  ℕ, ◌≡◌, ◌≢◌, refl, Bytes, Bool, true, false, ◌||◌, Option, none, some, List, [], ◌∷◌,
  if◌then◌else◌, arith, same_bytes_iff, bytes_eq, ◌==◌, inl, inr, Option-cases,
}
use watchkeepers.Capability.{Entry, Broker, expired_at, prune_expired, prune_one}

-- What a sweep at `now` leaves of an entry.
abbrev pub keep : ℕ → Option Entry → Option Entry
keep now none = none
keep now (some e) = if expired_at e now then none else some e

abbrev pub holds : Bytes → List Bytes → Bool
holds u [] = false
holds u (t ∷ order) = t == u || holds u order

prune_one_lookup :
    (t u : Bytes) (now : ℕ) (b : Broker)
    → (prune_one t now b).tokens u ≡ (if t == u then keep now (b.tokens u) else b.tokens u)
unfolding prune_one
prune_one_lookup t u now b = ground (arith, same_bytes_iff t u)

prune_lookup :
    (order : List Bytes) (u : Bytes) (now : ℕ) (b : Broker)
    → (prune_expired order now b).tokens u
      ≡ (if holds u order then keep now (b.tokens u) else b.tokens u)
unfolding prune_expired
prune_lookup [] u now b = refl
prune_lookup (t ∷ order) u now b =
    ground (arith, prune_lookup order u now (prune_one t now b), prune_one_lookup t u now b)

-- A sweep that meets every key of the map leaves exactly the entries whose expiry is after its
-- clock, each as it was.
pub sweep_exact :
    (order : List Bytes) (now : ℕ) (b : Broker)
    → ((u : Bytes) → b.tokens u ≢ none → holds u order ≡ true)
    → (u : Bytes) → (prune_expired order now b).tokens u ≡ keep now (b.tokens u)
sweep_exact order now b met u = elim (Option-cases (b.tokens u)) [
  | inl e ↦ ground (arith, prune_lookup order u now b)
  | inr (e, there) ↦ ground (arith, prune_lookup order u now b, met u (λ n. cc))
]
