-- ===== src/Prelude/Descent.antt =====
-- A number that goes down first, and a relation that does where the number does not go up.
use Prim.Native.Nat.{ℕ, zero, suc, ◌≤◌, ◌<◌}
use mathlib.Core.Logic.{◌⊎◌, inl, inr}
use mathlib.Core.WellFounded.{Acc}
use native.Mathlib.Omega.{arith}

abbrev pub Lex : {A : Type 0} → (A → ℕ) → (A → A → Type 0) → A → A → Type 0
Lex m R c b = (m c < m b) ⊎ (m c ≤ m b) × R c b

module _ {A : Type 0} (m : A → ℕ) (R : A → A → Type 0) where
  Lex-inner :
      (n : ℕ)
      → ((c : A) → m c < n → Acc (Lex m R) c)
      → (b : A) → Acc R b
      → m b ≤ n
      → Acc (Lex m R) b
  Lex-inner n below b (Acc.intro _ smaller) bound = Acc.intro b λ c less. elim less [
    | inl lt ↦ below c (omega (arith, lt, bound))
    | inr (le, r) ↦ Lex-inner n below c (smaller c r) (omega (arith, le, bound))
  ]

  Lex-outer : ((b : A) → Acc R b) → (n : ℕ) (b : A) → m b < n → Acc (Lex m R) b
  Lex-outer acc zero b bound = absurd (omega (arith, bound))
  Lex-outer acc (suc n) b bound = Lex-inner n (Lex-outer acc n) b (acc b) (omega (arith, bound))

  pub Lex-Acc : ((b : A) → Acc R b) → (b : A) → Acc (Lex m R) b
  Lex-Acc acc b = Lex-outer acc (suc (m b)) b (omega arith)

abbrev pub Never : {A : Type 0} → A → A → Type 0
Never c b = ⊥

pub Never-Acc : {A : Type 0} (b : A) → Acc Never b
Never-Acc b = Acc.intro b λ c never. absurd never
