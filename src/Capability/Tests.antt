-- ===== src/Capability/Tests.antt =====
-- A broker at work, and the theorems at it.
use watchkeepers.Prelude.{
  ℕ, ◌+◌, ◌<◌, ◌≡◌, ◌≢◌, ◌↔◌, inr, refl, String, Bytes, true, false, Option, none, some, List, [],
  ◌∷◌, arith, ℤ, pos, ltb, if◌then◌else◌, eq_iff, put, empty_map, bytes_eq, same_bytes,
}
use watchkeepers.Go.Errors.{Error, Result, ok}
use watchkeepers.Capability.{
  Entry, Broker, broker_closed, token_expired, minted, new_broker, issue, issue_for_org, validate,
  validate_for_org, revoke, close, prune_expired, token_prefix,
}
use watchkeepers.Capability.Schedule.{Action, remove_action, prune_action, store_action, interleave}
use watchkeepers.Capability.Admit.{validate_for_org_admits_iff, issue_lifetime}
use watchkeepers.Capability.Tenant.{tenant_pinned, revoke_final}
use watchkeepers.Capability.Closed.{close_final}
use watchkeepers.Capability.Reaper.{keep, holds, sweep_exact}
use watchkeepers.Capability.Redaction.{log_redacted}

abbrev token_a : Bytes
token_a = 1 ∷ 2 ∷ 3 ∷ 4 ∷ 5 ∷ 6 ∷ 7 ∷ 8 ∷ 9 ∷ []

abbrev token_b : Bytes
token_b = 1 ∷ 2 ∷ 3 ∷ 4 ∷ 5 ∷ 6 ∷ 7 ∷ 8 ∷ 10 ∷ []

abbrev idle : Broker → Broker
idle b = b

abbrev fresh_broker : Broker
unfolding new_broker
fresh_broker = new_broker true

minted_a : (issue "keep.write" (pos 50) (ok token_a) 100 idle fresh_broker).0 ≡ minted token_a
unfolding issue new_broker
minted_a = refl

abbrev with_a : Broker
with_a = (issue "keep.write" (pos 50) (ok token_a) 100 idle fresh_broker).1

admits_at_149 : (validate none token_a "keep.write" 149 149 idle with_a).0 ≡ none
unfolding validate issue new_broker same_bytes
admits_at_149 = refl

expires_at_150 : (validate none token_a "keep.write" 150 150 idle with_a).0 ≡ some token_expired
unfolding validate issue new_broker same_bytes
expires_at_150 = refl

validate_for_org_admits_iff_example :
    ((validate_for_org none token_a "keep.write" "org" 149 149 idle with_a).0 ≡ none) ↔ (
      (◌≡◌ {A = Option Error} none none)
      × (◌≢◌ {A = String} "org" "")
      × (with_a.closed ≡ false)
      × ((e : Entry) × (with_a.tokens token_a ≡ some e)
          × (149 < e.expiry)
          × (e.scope ≡ "keep.write")
          × (e.organization_id ≡ "org")))
validate_for_org_admits_iff_example =
    validate_for_org_admits_iff none token_a "keep.write" "org" 149 149 idle with_a

b_not_a : token_b ≢ token_a
b_not_a h = cc

abbrev bystanders : List Action
bystanders = remove_action token_b ∷ prune_action (token_a ∷ []) 120 ∷ []

issue_lifetime_example :
    (validate none token_a "keep.write" 149 149 idle (interleave bystanders with_a)).0
    ≡ (if ltb 149 (100 + 50) then none else some token_expired)
issue_lifetime_example =
    issue_lifetime "keep.write" (pos 50) (ok token_a) 100 idle fresh_broker token_a bystanders 149
      149 idle minted_a ((tt, omega arith), b_not_a)

minted_for_org :
    (issue_for_org "keep.write" "org" (pos 50) (ok token_a) 100 idle fresh_broker).0
    ≡ minted token_a
unfolding issue_for_org new_broker
minted_for_org = refl

org_not_other : ◌≢◌ {A = String} "org" "other"
org_not_other h = cc ((eq_iff "org" "other").1 h)

tenant_pinned_example :
    (validate_for_org none token_a "keep.write" "other" 101 101 idle (
      interleave bystanders
        (issue_for_org "keep.write" "org" (pos 50) (ok token_a) 100 idle fresh_broker).1)).0
    ≢ none
tenant_pinned_example =
    tenant_pinned "keep.write" "org" (pos 50) (ok token_a) 100 idle fresh_broker token_a bystanders
      none "keep.write" "other" 101 101 idle minted_for_org ((tt, tt), tt) (inr org_not_other)

revoked_a : (revoke token_a with_a).0 ≡ none
unfolding revoke issue new_broker
revoked_a = refl

revoke_final_example :
    (validate none token_a "keep.write" 101 101 idle
      (interleave bystanders (revoke token_a with_a).1)).0
    ≢ none
revoke_final_example =
    revoke_final token_a with_a bystanders none "keep.write" 101 101 idle revoked_a ((tt, tt), tt)

not_yet_closed : with_a.close_done ≡ false
unfolding issue new_broker
not_yet_closed = refl

close_final_example :
    let c = interleave bystanders (
      close
        (interleave
          (store_action token_b (record { scope = "s"; organization_id = ""; expiry = 900 }) ∷ []))
        with_a) in
    ((token : Bytes) → c.tokens token ≡ none)
    × ((scope : String) (ttl : ℤ) (fresh : Result Bytes) (now : ℕ) (others : List Action)
          (token : Bytes)
        → (issue scope ttl fresh now (interleave others) c).0 ≢ minted token)
    × ((scope org : String) (ttl : ℤ) (fresh : Result Bytes) (now : ℕ) (others : List Action)
          (token : Bytes)
        → (issue_for_org scope org ttl fresh now (interleave others) c).0 ≢ minted token)
    × ((ctx_err : Option Error) (token : Bytes) (scope : String) (now now' : ℕ)
          (others : List Action)
        → (validate ctx_err token scope now now' (interleave others) c).0 ≢ none)
    × ((ctx_err : Option Error) (token : Bytes) (scope org : String) (now now' : ℕ)
          (others : List Action)
        → (validate_for_org ctx_err token scope org now now' (interleave others) c).0 ≢ none)
    × ((token : Bytes) → revoke token c ≡ (some broker_closed, c))
close_final_example =
    close_final
      (store_action token_b (record { scope = "s"; organization_id = ""; expiry = 900 }) ∷ [])
      bystanders with_a not_yet_closed

abbrev one_entry : Broker
unfolding new_broker
one_entry = record (new_broker true) {
  tokens = put token_a (record { scope = "s"; organization_id = ""; expiry = 150 }) empty_map;
}

one_entry_met : (u : Bytes) → one_entry.tokens u ≢ none → holds u (token_a ∷ []) ≡ true
unfolding new_broker
one_entry_met u h = ground arith

sweep_exact_example :
    (prune_expired (token_a ∷ []) 150 one_entry).tokens token_a
    ≡ keep 150 (one_entry.tokens token_a)
sweep_exact_example = sweep_exact (token_a ∷ []) 150 one_entry one_entry_met token_a

same_prefix : token_prefix token_a ≡ token_prefix token_b
unfolding token_prefix
same_prefix = refl

log_redacted_example :
    ((validate none token_a "s" 1 1 idle fresh_broker).1.log
      ≡ (validate none token_b "s" 1 1 idle fresh_broker).1.log)
    × ((validate_for_org none token_a "s" "org" 1 1 idle fresh_broker).1.log
        ≡ (validate_for_org none token_b "s" "org" 1 1 idle fresh_broker).1.log)
    × ((revoke token_a fresh_broker).1.log ≡ (revoke token_b fresh_broker).1.log)
unfolding new_broker
log_redacted_example =
    log_redacted token_a token_b same_prefix none "s" "org" 1 1 idle fresh_broker refl
