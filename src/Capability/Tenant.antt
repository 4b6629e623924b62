-- ===== src/Capability/Tenant.antt =====
-- A token minted for one tenant does not pass for another, whatever happens in between.
use watchkeepers.Prelude.{
  ℕ, ◌+◌, ◌≡◌, ◌≢◌, ◌⊎◌, inl, inr, String, Bytes, Option, none, List, Every, arith, same_bytes_iff,
  ℤ, pos_part, eq_iff,
}
use watchkeepers.Go.Errors.{Error, Result}
use watchkeepers.Capability.{
  Entry, Broker, issue_for_org, minted, validate_for_org, revoke, validate,
}
use watchkeepers.Capability.Schedule.{Action, interleave, IsForeign, Fades, interleave-Fades}

abbrev tenant_entry : String → String → ℕ → ℤ → Entry
tenant_entry scope organization_id now ttl = record {
  scope = scope;
  organization_id = organization_id;
  expiry = now + pos_part ttl;
}

issue_for_org-Fades :
    (scope organization_id : String) (ttl : ℤ) (fresh : Result Bytes) (now : ℕ)
    (between : Broker → Broker) (b : Broker) (token : Bytes)
    → (issue_for_org scope organization_id ttl fresh now between b).0 ≡ minted token
    → Fades token
        (tenant_entry scope organization_id now ttl)
        (issue_for_org scope organization_id ttl fresh now between b).1
unfolding issue_for_org
issue_for_org-Fades scope organization_id ttl fresh now between b token h =
    inr (ground (arith, same_bytes_iff token token))

refused_other :
    (token : Bytes) (e : Entry) (ctx_err : Option Error) (scope organization_id : String)
    (now now' : ℕ) (between : Broker → Broker) (b : Broker)
    → (e.scope ≢ scope) ⊎ (e.organization_id ≢ organization_id)
    → Fades token e b
    → (validate_for_org ctx_err token scope organization_id now now' between b).0 ≢ none
unfolding validate_for_org
refused_other token e ctx_err scope organization_id now now' between b d h =
    ground (arith, eq_iff e.scope scope, eq_iff e.organization_id organization_id)

-- A token that `IssueForOrg` minted for an organization and a scope is refused by `ValidateForOrg`
-- for any other organization or scope, at any time, after anything that other goroutines do other
-- than minting the same token again.
pub tenant_pinned :
    (scope organization_id : String) (ttl : ℤ) (fresh : Result Bytes) (now : ℕ)
    (between : Broker → Broker) (b : Broker) (token : Bytes) (others : List Action)
    (ctx_err : Option Error) (scope' organization_id' : String) (t t' : ℕ)
    (between' : Broker → Broker)
    → (issue_for_org scope organization_id ttl fresh now between b).0 ≡ minted token
    → Every (IsForeign token) others
    → (scope ≢ scope') ⊎ (organization_id ≢ organization_id')
    → (validate_for_org ctx_err token scope' organization_id' t t' between'
        (interleave others (issue_for_org scope organization_id ttl fresh now between b).1)).0
      ≢ none
tenant_pinned scope org ttl fresh now between b token others ctx_err scope' org' t t' between' h
      foreign d =
    let e = tenant_entry scope org now ttl in
    refused_other token e ctx_err scope' org' t t' between' _ d (
      interleave-Fades token e others _ foreign
        (issue_for_org-Fades scope org ttl fresh now between b token h))

revoke-gone :
    (token : Bytes) (b : Broker)
    → (revoke token b).0 ≡ none
    → (revoke token b).1.tokens token ≡ none
unfolding revoke
revoke-gone token b h = ground (arith, same_bytes_iff token token)

-- An entry that could only be one of two different ones is not there.
gone_refused :
    (token : Bytes) (e e' : Entry) (ctx_err : Option Error) (scope : String) (now now' : ℕ)
    (between : Broker → Broker) (b : Broker)
    → e.expiry ≢ e'.expiry
    → Fades token e b
    → Fades token e' b
    → (validate ctx_err token scope now now' between b).0 ≢ none
unfolding validate
gone_refused token e e' ctx_err scope now now' between b d h h' = ground arith

-- After a `Revoke` that returned nil, `Validate` refuses the token for every scope at any time,
-- after anything that other goroutines do other than minting the same token again.
pub revoke_final :
    (token : Bytes) (b : Broker) (others : List Action) (ctx_err : Option Error) (scope : String)
    (t t' : ℕ) (between : Broker → Broker)
    → (revoke token b).0 ≡ none
    → Every (IsForeign token) others
    → (validate ctx_err token scope t t' between (interleave others (revoke token b).1)).0 ≢ none
revoke_final token b others ctx_err scope t t' between h foreign =
    let gone = revoke-gone token b h in
    let e : Entry = record { scope = ""; organization_id = ""; expiry = 0 } in
    let e' : Entry = record { scope = ""; organization_id = ""; expiry = 1 } in
    gone_refused token e e' ctx_err scope t t' between _ (omega arith)
      (interleave-Fades token e others _ foreign (inl gone))
      (interleave-Fades token e' others _ foreign (inl gone))
