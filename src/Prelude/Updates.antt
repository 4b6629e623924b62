-- ===== src/Prelude/Updates.antt =====
-- A list updated at an index, and a number summed over it.
use Prim.Native.Nat.{ℕ, zero, suc, ◌+◌, ◌≤◌}
use mathlib.Core.Path.{◌≡◌, refl, ap}
use mathlib.Core.Logic.{◌≢◌, ◌⊎◌, inl, inr}
use mathlib.Core.List.{List, [], ◌∷◌, ◌++◌}
use mathlib.Core.Option.{some}
use native.Mathlib.Omega.{arith}
use watchkeepers.Prelude.Tests.{Bool-cases, nat_eq}
use watchkeepers.Prelude.Lists.{length, get_elem?, Every}

module _ {ℓ} {A : Type ℓ} where
  abbrev pub update_at : ℕ → (A → A) → List A → List A
  update_at i f [] = []
  update_at zero f (x ∷ xs) = f x ∷ xs
  update_at (suc i) f (x ∷ xs) = x ∷ update_at i f xs

module _ {ℓ} {A : Type ℓ} where
  pub length-update_at : (i : ℕ) (f : A → A) (xs : List A) → length (update_at i f xs) ≡ length xs
  length-update_at i f [] = refl
  length-update_at zero f (x ∷ xs) = refl
  length-update_at (suc i) f (x ∷ xs) = ap suc (length-update_at i f xs)

  -- An item of the updated list is the item of the list, changed at the index and as it was elsewhere.
  pub get-update_at :
      (i : ℕ) (f : A → A) (xs : List A) (j : ℕ) (a : A)
      → get_elem? (update_at i f xs) j ≡ some a
      → (b : A) × (get_elem? xs j ≡ some b) × (((i ≡ j) × (a ≡ f b)) ⊎ ((i ≢ j) × (a ≡ b)))
  get-update_at i f [] j a h = absurd (cc h)
  get-update_at zero f (x ∷ xs) zero a h = (x, refl, inl (refl, cc h))
  get-update_at zero f (x ∷ xs) (suc j) a h = (a, h, inr (omega arith, refl))
  get-update_at (suc i) f (x ∷ xs) zero a h = (x, refl, inr (omega arith, cc h))
  get-update_at (suc i) f (x ∷ xs) (suc j) a h =
      let (b, g, e) = get-update_at i f xs j a h in
      (
        b,
        g,
        elim e [
          | inl (same, c) ↦ inl (ap suc same, c)
          | inr (other, c) ↦ inr (λ p. other (omega (arith, p)), c)
        ],
      )

-- An item of a list with one more is one of the list or the last.
pub get-snoc :
    {A : Type 0} (xs : List A) (y : A) (j : ℕ) (a : A)
    → get_elem? (xs ++ y ∷ []) j ≡ some a
    → (get_elem? xs j ≡ some a) ⊎ ((j ≡ length xs) × (a ≡ y))
get-snoc [] y zero a h = inr (refl, cc h)
get-snoc [] y (suc j) a h = absurd (cc h)
get-snoc (x ∷ xs) y zero a h = inl h
get-snoc (x ∷ xs) y (suc j) a h = elim (get-snoc xs y j a h) [
  | inl g ↦ inl g
  | inr (at, same) ↦ inr (ap suc at, same)
]

pub get-update-other :
    {A : Type 0} (i : ℕ) (f : A → A) (xs : List A) (j : ℕ)
    → i ≢ j
    → get_elem? (update_at i f xs) j ≡ get_elem? xs j
get-update-other i f [] j h = refl
get-update-other zero f (x ∷ xs) zero h = absurd (h refl)
get-update-other zero f (x ∷ xs) (suc j) h = refl
get-update-other (suc i) f (x ∷ xs) zero h = refl
get-update-other (suc i) f (x ∷ xs) (suc j) h = get-update-other i f xs j (λ p. h (ap suc p))

abbrev pub total {ℓ} : {A : Type ℓ} → (A → ℕ) → List A → ℕ
total w [] = 0
total w (x ∷ xs) = w x + total w xs

pub total-append {ℓ} :
    {A : Type ℓ} (w : A → ℕ) (xs ys : List A) → total w (xs ++ ys) ≡ total w xs + total w ys
total-append w [] ys = omega arith
total-append w (x ∷ xs) ys = omega (arith, total-append w xs ys)

pub total-update_at {ℓ} :
    {A : Type ℓ} (w : A → ℕ) (i : ℕ) (f : A → A) (xs : List A) (x : A)
    → get_elem? xs i ≡ some x
    → total w (update_at i f xs) + w x ≡ total w xs + w (f x)
total-update_at w i f [] x h = absurd (cc h)
total-update_at w zero f (y ∷ xs) x h = let same : y ≡ x = cc h in rw same (omega arith)
total-update_at w (suc i) f (y ∷ xs) x h = omega (arith, total-update_at w i f xs x h)

-- What every item has, the item at an index has.
pub Every-get {ℓ κ} :
    {A : Type ℓ} (Q : A → Type κ) (xs : List A) (i : ℕ) (x : A)
    → Every Q xs
    → get_elem? xs i ≡ some x
    → Q x
Every-get Q [] i x h e = absurd (cc e)
Every-get Q (y ∷ xs) zero x (rest, q) e = let same : y ≡ x = cc e in rw (← same) q
Every-get Q (y ∷ xs) (suc i) x (rest, q) e = Every-get Q xs i x rest e

-- An update keeps what every item has when the changed item has it.
pub Every-update_at {ℓ κ} :
    {A : Type ℓ} (Q : A → Type κ) (i : ℕ) (f : A → A) (xs : List A)
    → ((x : A) → get_elem? xs i ≡ some x → Q x → Q (f x))
    → Every Q xs
    → Every Q (update_at i f xs)
Every-update_at Q i f [] step h = tt
Every-update_at Q zero f (x ∷ xs) step (rest, q) = (rest, step x refl q)
Every-update_at Q (suc i) f (x ∷ xs) step (rest, q) = (Every-update_at Q i f xs step rest, q)

-- What holds of each item by what it had before.
pub Every-map {ℓ κ ι} :
    {A : Type ℓ} (P : A → Type κ) (Q : A → Type ι) (xs : List A)
    → ((x : A) → P x → Q x)
    → Every P xs
    → Every Q xs
Every-map P Q [] f h = tt
Every-map P Q (x ∷ xs) f (rest, p) = (Every-map P Q xs f rest, f x p)

-- No item counts more than the whole.
pub total-get {ℓ} :
    {A : Type ℓ} (w : A → ℕ) (xs : List A) (i : ℕ) (x : A)
    → get_elem? xs i ≡ some x
    → w x ≤ total w xs
total-get w [] i x h = absurd (cc h)
total-get w (y ∷ xs) zero x h = let same : y ≡ x = cc h in rw same (omega arith)
total-get w (y ∷ xs) (suc i) x h = omega (arith, total-get w xs i x h)

-- Someone counts in a sum that is not 0.
pub total-someone :
    {A : Type 0} (w : A → ℕ) (xs : List A)
    → 1 ≤ total w xs
    → (i : ℕ) × (x : A) × (get_elem? xs i ≡ some x) × (1 ≤ w x)
total-someone w [] h = absurd (omega (arith, h))
total-someone w (x ∷ xs) h = elim (Bool-cases (nat_eq (w x) 0)) [
  | inr n ↦ (0, x, refl, ground arith)
  | inl z ↦ let (i, y, at, some_one) = total-someone w xs (ground arith) in (suc i, y, at, some_one)
]

pub get-update-same :
    {A : Type 0} (i : ℕ) (f : A → A) (xs : List A) (x : A)
    → get_elem? xs i ≡ some x
    → get_elem? (update_at i f xs) i ≡ some (f x)
get-update-same i f [] x h = absurd (cc h)
get-update-same zero f (y ∷ xs) x h = let same : y ≡ x = cc h in ap (λ z. some (f z)) same
get-update-same (suc i) f (y ∷ xs) x h = get-update-same i f xs x h

-- An update that changes nothing at its index, or has none, changes nothing.
pub update_at-same :
    {A : Type 0} (i : ℕ) (f : A → A) (xs : List A)
    → ((x : A) → get_elem? xs i ≡ some x → f x ≡ x)
    → update_at i f xs ≡ xs
update_at-same i f [] h = refl
update_at-same zero f (x ∷ xs) h = ap (λ y. y ∷ xs) (h x refl)
update_at-same (suc i) f (x ∷ xs) h = ap (λ ys. x ∷ ys) (update_at-same i f xs h)
