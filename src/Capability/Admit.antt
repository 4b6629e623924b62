-- ===== src/Capability/Admit.antt =====
-- When `Validate` and `ValidateForOrg` admit, and how long a token lives.
use watchkeepers.Prelude.{
  ℕ, ◌+◌, ◌<◌, ◌≡◌, ◌≢◌, ◌↔◌, String, Bytes, false, Option, none, some, List, Every, if◌then◌else◌,
  arith, same_bytes_iff, bytes_eq, inl, inr, ℤ, pos_part, eq_iff, Option-cases, ltb,
}
use watchkeepers.Go.Errors.{Error, Result}
use watchkeepers.Capability.{
  Entry, Broker, token_expired, issue, minted, validate, validate_for_org,
}
use watchkeepers.Capability.Schedule.{Action, interleave, Spares, IsLive, interleave-IsLive}

-- `Validate` admits a token exactly when its context is not cancelled, the broker is open, and the
-- map holds an entry for the token that is not expired and has the wanted scope.
validate_admits_iff :
    (ctx_err : Option Error) (token : Bytes) (scope : String) (now now' : ℕ)
    (between : Broker → Broker) (b : Broker)
    → ((validate ctx_err token scope now now' between b).0 ≡ none) ↔ (
        (ctx_err ≡ none)
        × (b.closed ≡ false)
        × ((e : Entry) × (b.tokens token ≡ some e) × (now < e.expiry) × (e.scope ≡ scope)))
unfolding validate
validate_admits_iff ctx_err token scope now now' between b = (
  λ h. elim (Option-cases (b.tokens token)) [
    | inl e ↦ absurd (ground arith)
    | inr (e, there) ↦
        (ground arith, ground arith, (e, there, ground arith, ground (arith, eq_iff e.scope scope)))
  ],
  λ h. ground (arith, eq_iff h.2.0.scope scope),
)

-- The same of `ValidateForOrg`, where moreover the organization is not empty and is the entry's.
pub validate_for_org_admits_iff :
    (ctx_err : Option Error) (token : Bytes) (scope organization_id : String) (now now' : ℕ)
    (between : Broker → Broker) (b : Broker)
    → ((validate_for_org ctx_err token scope organization_id now now' between b).0 ≡ none) ↔ (
        (ctx_err ≡ none)
        × (organization_id ≢ "")
        × (b.closed ≡ false)
        × ((e : Entry) × (b.tokens token ≡ some e)
            × (now < e.expiry)
            × (e.scope ≡ scope)
            × (e.organization_id ≡ organization_id)))
unfolding validate_for_org
validate_for_org_admits_iff ctx_err token scope organization_id now now' between b = (
  λ h. elim (Option-cases (b.tokens token)) [
    | inl e ↦ absurd (ground arith)
    | inr (e, there) ↦ (
      ground arith,
      ground (arith, eq_iff organization_id ""),
      ground arith,
      (
        e,
        there,
        ground arith,
        ground (arith, eq_iff e.scope scope),
        ground (arith, eq_iff e.organization_id organization_id),
      ),
    )
  ],
  λ h. ground (
    arith,
    eq_iff h.3.0.scope scope,
    eq_iff h.3.0.organization_id organization_id,
    eq_iff organization_id "",
  ),
)

issue-IsLive :
    (scope : String) (ttl : ℤ) (fresh : Result Bytes) (now : ℕ) (between : Broker → Broker)
    (b : Broker) (token : Bytes)
    → (issue scope ttl fresh now between b).0 ≡ minted token
    → IsLive token
        (record { scope = scope; organization_id = ""; expiry = now + pos_part ttl })
        (issue scope ttl fresh now between b).1
unfolding issue
issue-IsLive scope ttl fresh now between b token h = ground (arith, same_bytes_iff token token)

validate_live :
    (token : Bytes) (e : Entry) (now now' : ℕ) (between : Broker → Broker) (b : Broker)
    → IsLive token e b
    → (validate none token e.scope now now' between b).0
      ≡ (if ltb now e.expiry then none else some token_expired)
unfolding validate
validate_live token e now now' between b h = ground (arith, eq_iff e.scope e.scope)

-- A token that `Issue` minted at `now` for `ttl`, after anything that other goroutines do short of
-- closing the broker, revoking the token, minting it again, or sweeping at or past its expiry, is
-- admitted for its scope exactly before `now + ttl`, and expired from then on.
pub issue_lifetime :
    (scope : String) (ttl : ℤ) (fresh : Result Bytes) (now : ℕ) (between : Broker → Broker)
    (b : Broker) (token : Bytes) (others : List Action) (t t' : ℕ) (between' : Broker → Broker)
    → (issue scope ttl fresh now between b).0 ≡ minted token
    → Every
        (Spares token (record { scope = scope; organization_id = ""; expiry = now + pos_part ttl }))
        others
    → (validate none token scope t t' between'
        (interleave others (issue scope ttl fresh now between b).1)).0
      ≡ (if ltb t (now + pos_part ttl) then none else some token_expired)
issue_lifetime scope ttl fresh now between b token others t t' between' h spared =
    validate_live token _ t t' between' _ (
      interleave-IsLive token _ others _ spared
        (issue-IsLive scope ttl fresh now between b token h))
