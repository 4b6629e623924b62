-- ===== src/Prelude/Lists.antt =====
-- Lists measured and indexed by native numbers, under the library's names.
use Prim.Native.Nat.{ℕ, zero, suc, ◌+◌}
use mathlib.Core.Path.{◌≡◌}
use mathlib.Core.List.{List, [], ◌∷◌, ◌++◌}
use mathlib.Core.Option.{Option, none, some}
use native.Mathlib.Omega.{arith}

module _ {ℓ} {A : Type ℓ} where
  abbrev pub length : List A → ℕ
  length [] = 0
  length (x ∷ xs) = suc (length xs)

  abbrev pub get_elem? : List A → ℕ → Option A
  get_elem? [] i = none
  get_elem? (x ∷ xs) zero = some x
  get_elem? (x ∷ xs) (suc i) = get_elem? xs i

  abbrev pub take : ℕ → List A → List A
  take zero xs = []
  take (suc n) [] = []
  take (suc n) (x ∷ xs) = x ∷ take n xs

  pub length-append : (xs ys : List A) → length (xs ++ ys) ≡ length xs + length ys
  length-append [] ys = omega arith
  length-append (x ∷ xs) ys = omega (arith, length-append xs ys)

-- Every element has the property `Q`.
abbrev pub Every {ℓ κ} : {A : Type ℓ} → (Q : A → Type κ) (l : List A) → Type κ
Every Q (a ∷ l) = Every Q l × Q a
Every Q [] = Unit

pub Every-append {ℓ κ} :
    {A : Type ℓ} (Q : A → Type κ) (k l : List A) → Every Q k → Every Q l → Every Q (k ++ l)
Every-append Q (a ∷ k) l (rest, qa) ql = (Every-append Q k l rest ql, qa)
Every-append Q [] l _ ql = ql
