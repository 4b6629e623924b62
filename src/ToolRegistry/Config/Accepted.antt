-- ===== src/ToolRegistry/Config/Accepted.antt =====
-- What an accepted configuration is known to have.
use watchkeepers.Prelude.{
  String, ◌≡◌, refl, Bool, true, false, ◌||◌, none, List, [], ◌∷◌, ◌==◌, string_eq, inl, inr,
  Bool-cases, Option-cases, Every, eq_iff, Map, put,
}
use watchkeepers.Go.Text.{is_blank}
use watchkeepers.ToolRegistry.Config.{
  SourceConfig, name_chars, name_char, valid_source_name, validate_source, validate_from,
}

pub validate_from-Every :
    (ss : List SourceConfig) (seen : Map String Bool)
    → validate_from ss seen ≡ none
    → Every (λ s. validate_source s ≡ none) ss
unfolding validate_from
validate_from-Every [] seen h = tt
validate_from-Every (s ∷ ss) seen h = elim (Option-cases (validate_source s)) [
  | inr (e, v) ↦ absurd (cc (rw (validate_from, v) at h))
  | inl v ↦ elim (Option-cases (seen s.name)) [
    | inr (d, n) ↦ absurd (cc (rw (validate_from, v, n) at h))
    | inl n ↦ (validate_from-Every ss (put s.name true seen) (rw (validate_from, v, n) at h), v)
  ]
]

pub validate_source-valid_source_name :
    (s : SourceConfig) → validate_source s ≡ none → valid_source_name s.name ≡ true
unfolding validate_source
validate_source-valid_source_name s h = elim (Bool-cases (is_blank s.name)) [
  | inl b ↦ absurd (cc (rw b at h))
  | inr b ↦ elim (Bool-cases (valid_source_name s.name)) [
    | inl v ↦ v
    | inr v ↦ absurd (cc (rw (b, v) at h))
  ]
]

-- An accepted name is not empty, and not a name for this directory or the one above it.
pub valid_source_name-plain :
    (n : String) → valid_source_name n ≡ true → (n == "" || n == "." || n == "..") ≡ false
unfolding valid_source_name name_chars name_char
valid_source_name-plain n h = elim (Bool-cases (n == "")) [
  | inl e ↦ let same : n ≡ "" = (eq_iff n "").0 e in absurd (cc (rw same at h))
  | inr e ↦ elim (Bool-cases (n == ".")) [
    | inl d ↦ let same : n ≡ "." = (eq_iff n ".").0 d in absurd (cc (rw same at h))
    | inr d ↦ elim (Bool-cases (n == "..")) [
      | inl dd ↦ let same : n ≡ ".." = (eq_iff n "..").0 dd in absurd (cc (rw same at h))
      | inr dd ↦ rw (e, d, dd) refl
    ]
  ]
]
