-- ===== src/Auth/Roles.antt =====
-- The scopes that the verifier accepts and those that have a database role.
use watchkeepers.Prelude.{
  ℕ, suc, ◌≡◌, refl, sym, ap, ◌∙◌, String, true, false, Bool-cases, inl, inr, ◌↔◌, ◌==◌, number_eq,
  string_eq, eq_iff, ==_ne, arith, ltb,
}
use Prim.Native.Char.{Char, code}
use text.Mathlib.TextEquality.{Char-path}
use watchkeepers.Go.Errors.{ok}
use watchkeepers.Go.Text.{cut_prefix, first_runes, rune_count}
use watchkeepers.Auth.{valid_scope, role_for_scope, has_rest, goes_on}

cons_ne : (c : Char) (s : String) → (String.◌∷◌ c s == "") ≡ false
cons_ne c s = ==_ne (String.◌∷◌ c s) "" (λ e. absurd cc)

cons_same :
    (c d : Char) (s p : String)
    → (code c == code d) ≡ true
    → (String.◌∷◌ c s == String.◌∷◌ d p) ≡ (s == p)
cons_same c d s p e =
    let same = Char-path c d ((number_eq.same_iff _ _).0 e) in
    elim (Bool-cases (s == p)) [
      | inl y ↦
          let tails = (eq_iff s p).0 y in
          (eq_iff (String.◌∷◌ c s) (String.◌∷◌ d p)).1 (cc (same, tails)) ∙ sym y
      | inr n ↦
          ==_ne (String.◌∷◌ c s) (String.◌∷◌ d p)
            (λ q. let tails : s ≡ p = cc q in cc (n, (eq_iff s p).1 tails))
          ∙ sym n
    ]

cons_other :
    (c d : Char) (s p : String)
    → (code c == code d) ≡ false
    → (String.◌∷◌ c s == String.◌∷◌ d p) ≡ false
cons_other c d s p e = ==_ne (String.◌∷◌ c s) (String.◌∷◌ d p) (λ q.
    let heads : c ≡ d = cc q in cc (e, (number_eq.same_iff (code c) (code d)).1 (ap code heads)))

suc-ltb : (m n : ℕ) → ltb (suc m) (suc n) ≡ ltb m n
suc-ltb m n = ground arith

-- The two ways of testing for a prefix and a rest are one.
has_rest-goes_on : (s prefix : String) → has_rest (cut_prefix s prefix) ≡ goes_on s prefix
has_rest-goes_on String.[] String.[] = refl
has_rest-goes_on (String.◌∷◌ c s) String.[] = rw (cons_ne c s) (ground arith)
has_rest-goes_on String.[] (String.◌∷◌ d p) = ground arith
has_rest-goes_on (String.◌∷◌ c s) (String.◌∷◌ d p) =
    let rest = has_rest-goes_on s p in
    elim (Bool-cases (code c == code d)) [
      | inl e ↦ rw (cons_same c d (first_runes (rune_count p) s) p e, suc-ltb) (rw e rest)
      | inr e ↦ rw (cons_other c d (first_runes (rune_count p) s) p e) (rw e (ground arith))
    ]

-- `RoleForScope` has a role exactly for the scopes that `ValidScope` accepts.
pub valid_scope_iff :
    (s : String) → (valid_scope s ≡ true) ↔ ((role : String) × role_for_scope s ≡ ok role)
unfolding valid_scope role_for_scope
valid_scope_iff s =
    let user = has_rest-goes_on s "user:" in
    let agent = has_rest-goes_on s "agent:" in
    elim (Bool-cases (s == "org")) [
      | inl o ↦ rw (o, valid_scope, role_for_scope) (λ _. ("wk_org_role", refl), λ _. refl)
      | inr o ↦ elim (Bool-cases (goes_on s "user:")) [
        | inl u ↦
            rw (o, u, user ∙ u, valid_scope, role_for_scope)
              (λ _. ("wk_user_role", refl), λ _. refl)
        | inr u ↦ elim (Bool-cases (goes_on s "agent:")) [
          | inl a ↦
              rw (o, u, user ∙ u, a, agent ∙ a, valid_scope, role_for_scope)
                (λ _. ("wk_agent_role", refl), λ _. refl)
          | inr a ↦
              rw (o, u, user ∙ u, a, agent ∙ a, valid_scope, role_for_scope)
                (λ h. absurd cc, λ (role, h). absurd cc)
        ]
      ]
    ]
