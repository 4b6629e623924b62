-- ===== src/Capability/Redaction.antt =====
-- Of a token, the log shows its prefix and nothing else.
use watchkeepers.Prelude.{ℕ, ◌≡◌, String, Bytes, Option, arith}
use watchkeepers.Go.Errors.{Error}
use watchkeepers.Capability.{Broker, token_prefix, validate, validate_for_org, revoke, drop_expired}

module _ (t u : Bytes) (alike : token_prefix t ≡ token_prefix u) where
  log-drop_expired :
      (token : Bytes) (now : ℕ) (b : Broker)
      → ((drop_expired token now b).log ≡ b.log) × ((drop_expired token now b).logging ≡ b.logging)
  unfolding drop_expired
  log-drop_expired token now b = ground arith

  validate_redacted :
      (ctx_err : Option Error) (scope : String) (now now' : ℕ) (between : Broker → Broker)
      (b : Broker)
      → b.tokens t ≡ b.tokens u
      → (validate ctx_err t scope now now' between b).1.log
        ≡ (validate ctx_err u scope now now' between b).1.log
  unfolding validate
  validate_redacted ctx_err scope now now' between b same =
      ground (arith, log-drop_expired t now' (between b), log-drop_expired u now' (between b))

  validate_for_org_redacted :
      (ctx_err : Option Error) (scope org : String) (now now' : ℕ) (between : Broker → Broker)
      (b : Broker)
      → b.tokens t ≡ b.tokens u
      → (validate_for_org ctx_err t scope org now now' between b).1.log
        ≡ (validate_for_org ctx_err u scope org now now' between b).1.log
  unfolding validate_for_org
  validate_for_org_redacted ctx_err scope org now now' between b same =
      ground (arith, log-drop_expired t now' (between b), log-drop_expired u now' (between b))

  revoke_redacted : (b : Broker) → (revoke t b).1.log ≡ (revoke u b).1.log
  unfolding revoke
  revoke_redacted b = ground arith

  -- `Validate`, `ValidateForOrg` and `Revoke` write the same log for two tokens that have the same
  -- prefix and lead to the same entry: the log tells nothing of the rest of a token.
  pub log_redacted :
      (ctx_err : Option Error) (scope organization_id : String) (now now' : ℕ)
      (between : Broker → Broker) (b : Broker)
      → b.tokens t ≡ b.tokens u
      → ((validate ctx_err t scope now now' between b).1.log
          ≡ (validate ctx_err u scope now now' between b).1.log)
        × ((validate_for_org ctx_err t scope organization_id now now' between b).1.log
            ≡ (validate_for_org ctx_err u scope organization_id now now' between b).1.log)
        × ((revoke t b).1.log ≡ (revoke u b).1.log)
  log_redacted ctx_err scope organization_id now now' between b same = (
    validate_redacted ctx_err scope now now' between b same,
    validate_for_org_redacted ctx_err scope organization_id now now' between b same,
    revoke_redacted b,
  )
