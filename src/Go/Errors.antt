-- ===== src/Go/Errors.antt =====
-- Go error values as chains, with `errors.Is` and `errors.As`.
use watchkeepers.Prelude.{
  String, ◌≡◌, refl, Bool, false, ◌||◌, Option, none, some, ◌==◌, string_eq, ◌⊎◌,
}

-- `sentinel` is a package-level `errors.New` value, compared by identity and named by its variable;
-- `text` is an error made on the spot with `errors.New` or a `fmt.Errorf` with no `%w`;
-- `classed` is a typed error with a method `LastErrorClass`, `classed_wrap` one that also unwraps;
-- `wrap` is `fmt.Errorf` with one `%w`, `wrap_two` with two. A message is named by its format, and
-- the values that are formatted into it are left out.
pub data Error : Type 0 where
  sentinel : String → Error
  text : String → Error
  classed : String → Error
  wrap : String → Error → Error
  classed_wrap : String → Error → Error
  wrap_two : String → Error → Error → Error

-- `errors.Is(err, target)` for a sentinel `target`.
unfoldable pub is_error : Error → String → Bool
is_error (sentinel s) t = s == t
is_error (text m) t = false
is_error (classed c) t = false
is_error (wrap m e) t = is_error e t
is_error (classed_wrap c e) t = is_error e t
is_error (wrap_two m e f) t = is_error e t || is_error f t

-- `errors.As(err, &classed)` for the interface with `LastErrorClass`: the first link's class.
unfoldable pub as_class : Error → Option String
as_class (sentinel s) = none
as_class (text m) = none
as_class (classed c) = some c
as_class (wrap m e) = as_class e
as_class (classed_wrap c e) = some c
as_class (wrap_two m e f) =
    let first = as_class e in
    let second = as_class f in elim first [ none ↦ second | some c ↦ some c ]

-- A Go function's `(value, error)` result.
pub data Result {ℓ} (A : Type ℓ) : Type ℓ where
  ok : A → Result A
  err : Error → Result A

pub Result-cases {ℓ} :
    {A : Type ℓ} (r : Result A) → ((e : Error) × (r ≡ err e)) ⊎ ((a : A) × (r ≡ ok a))
Result-cases (ok a) = ◌⊎◌.inr (a, refl)
Result-cases (err e) = ◌⊎◌.inl (e, refl)
