-- ===== src/Prelude/Maps.antt =====
-- Go maps as functions: a missing key is `none`.
use mathlib.Core.Path.{◌≡◌}
use mathlib.Core.Logic.{◌≢◌}
use mathlib.Core.Option.{Option, none, some}
use watchkeepers.Prelude.Tests.{Comparable, ◌==◌, ==_refl, ==_ne, if◌then◌else◌}

abbrev pub Map {ℓ κ} : Type ℓ → Type κ → Type (ℓ ⊔ κ)
Map K V = K → Option V

module _ {ℓ κ} {K : Type ℓ} {V : Type κ} where
  abbrev pub empty_map : Map K V
  empty_map k = none

module _ {ℓ κ} {K : Type ℓ} {V : Type κ} ⦃c : Comparable K⦄ where
  abbrev pub put : K → V → Map K V → Map K V
  put k v m j = if k == j then some v else m j

  abbrev pub delete : K → Map K V → Map K V
  delete k m j = if k == j then none else m j

  pub put_self : (k : K) (v : V) (m : Map K V) → put k v m k ≡ some v
  put_self k v m = rw (==_refl k)

  pub put_ne : (k j : K) (v : V) (m : Map K V) → k ≢ j → put k v m j ≡ m j
  put_ne k j v m h = rw (==_ne k j h)
