-- ===== src/Capability.antt =====
-- core/pkg/capability: the broker of scoped capability tokens (broker.go, errors.go). The proofs
-- stand in the modules below.
mod Schedule
pub mod Admit
pub mod Reaper
pub mod Tenant
pub mod Closed
pub mod Redaction
mod Tests
use watchkeepers.Prelude.{
  ℕ, ◌+◌, String, Bytes, Bool, true, false, Option, none, some, List, [], ◌∷◌, ◌++◌, Map, empty_map,
  put, delete, leb, not, if◌then◌else◌, ◌==◌, string_eq, bytes_eq, length, take, ℤ, is_positive,
  pos_part,
}
use watchkeepers.Go.Errors.{Error, Result, ok, err}

pub data BrokerError : Type 0 where
  broker_closed invalid_scope invalid_ttl invalid_token token_expired scope_mismatch : BrokerError
  invalid_organization organization_mismatch : BrokerError
  generate_token : Error → BrokerError
  context_error : Error → BrokerError

-- `expiry` is an instant in nanoseconds.
pub record Entry : Type 0 where
  pub scope : String
  pub organization_id : String
  pub expiry : ℕ

-- A value of a log entry's fields.
pub data Value : Type 0 where
  text_value : String → Value
  token_value : Bytes → Value
  time_value : ℕ → Value

pub record LogEntry : Type 0 where
  pub message : String
  pub fields : List (String × Value)

-- `logging` says whether a logger is wired in; `log` is what it was handed.
pub record Broker : Type 0 where
  pub logging : Bool
  pub tokens : Map Bytes Entry
  pub closed : Bool
  pub close_done : Bool
  pub log : List LogEntry

unfoldable pub new_broker : Bool → Broker
new_broker logging = record {
  logging = logging;
  tokens = empty_map;
  closed = false;
  close_done = false;
  log = [];
}

abbrev pub token_prefix_len : ℕ
token_prefix_len = 8

unfoldable pub token_prefix : Bytes → Bytes
token_prefix token =
    if leb (length token) token_prefix_len then token else take token_prefix_len token

unfoldable pub write_log : String → List (String × Value) → Broker → Broker
write_log message fields b =
    if b.logging
    then record b { log = b.log ++ record { message = message; fields = fields } ∷ [] }
    else b

-- `!clock().Before(e.expiry)`.
abbrev pub expired_at : Entry → ℕ → Bool
expired_at e now = leb e.expiry now

-- The critical section that ends `Issue` and `IssueForOrg`.
unfoldable pub store_token : Bytes → Entry → Broker → Broker
store_token token e b = record b { tokens = put token e b.tokens }

-- The critical section of an expired token: the entry is read again, and the clock too.
unfoldable pub drop_expired : Bytes → ℕ → Broker → Broker
drop_expired token now b = elim (b.tokens token) [
  | none ↦ b
  | some e ↦ if expired_at e now then record b { tokens = delete token b.tokens } else b
]

-- One round of the loop of `pruneExpired`.
prune_one : Bytes → ℕ → Broker → Broker
unfolding write_log token_prefix
prune_one token now b = elim (b.tokens token) [
  | none ↦ b
  | some e ↦
      if expired_at e now
      then write_log "capability: reaper_pruned"
          (("scope", text_value e.scope) ∷ ("token_prefix", token_value (token_prefix token)) ∷ [])
          (record b { tokens = delete token b.tokens })
      else b
]

-- `pruneExpired`: `order` is the order in which the loop meets the map's keys.
unfoldable pub prune_expired : List Bytes → ℕ → Broker → Broker
unfolding prune_one
prune_expired [] now b = b
prune_expired (token ∷ order) now b = prune_expired order now (prune_one token now b)

-- The first and the last part of `Close`.
unfoldable pub set_closed : Broker → Broker
set_closed b = record b { closed = true }

unfoldable pub wipe : Broker → Broker
wipe b = record b { tokens = empty_map; close_done = true }

-- The result of `Issue`.
pub data Issued : Type 0 where
  minted : Bytes → Issued
  refused : BrokerError → Issued

-- The rest of `Issue` once there is a token: the clock read `now`, and `between` is what other
-- goroutines do before the critical section.
store_issued : Bytes → Entry → List (String × Value) → Broker → Issued × Broker
unfolding store_token write_log
store_issued token e fields b =
    if b.closed
    then (refused broker_closed, b)
    else (minted token, write_log "capability: issued" fields (store_token token e b))

unfoldable pub issue : String → ℤ → Result Bytes → ℕ → (Broker → Broker) → Broker → Issued × Broker
unfolding store_issued token_prefix
issue scope ttl fresh now between b =
    if scope == ""
    then (refused invalid_scope, b)
    else if not (is_positive ttl)
    then (refused invalid_ttl, b)
    else if b.closed
    then (refused broker_closed, b)
    else elim fresh [
      | err e ↦ (refused (generate_token e), b)
      | ok token ↦
          let expiry = now + pos_part ttl in
          store_issued token (record { scope = scope; organization_id = ""; expiry = expiry })
            (("scope", text_value scope)
              ∷ ("token_prefix", token_value (token_prefix token))
              ∷ ("expiry", time_value expiry)
              ∷ [])
            (between b)
    ]

unfoldable pub issue_for_org :
    String → String → ℤ → Result Bytes → ℕ → (Broker → Broker) → Broker → Issued × Broker
unfolding store_issued token_prefix
issue_for_org scope organization_id ttl fresh now between b =
    if scope == ""
    then (refused invalid_scope, b)
    else if organization_id == ""
    then (refused invalid_organization, b)
    else if not (is_positive ttl)
    then (refused invalid_ttl, b)
    else if b.closed
    then (refused broker_closed, b)
    else elim fresh [
      | err e ↦ (refused (generate_token e), b)
      | ok token ↦
          let expiry = now + pos_part ttl in
          store_issued token
            (record { scope = scope; organization_id = organization_id; expiry = expiry })
            (("scope", text_value scope)
              ∷ ("organization_id", text_value organization_id)
              ∷ ("token_prefix", token_value (token_prefix token))
              ∷ ("expiry", time_value expiry)
              ∷ [])
            (between b)
    ]

-- `Validate` on the entry that the read section found. `now'` is the clock's second reading.
validate_entry :
    Entry → Bytes → String → ℕ → ℕ → (Broker → Broker) → Broker → Option BrokerError × Broker
unfolding drop_expired write_log token_prefix
validate_entry e token scope now now' between b =
    if expired_at e now
    then (
      some token_expired,
      write_log "capability: expired"
          (("scope", text_value e.scope) ∷ ("token_prefix", token_value (token_prefix token)) ∷ [])
          (drop_expired token now' (between b)),
    )
    else if not (e.scope == scope)
    then (
      some scope_mismatch,
      write_log "capability: scope_mismatch"
          (("expected_scope", text_value scope)
            ∷ ("token_prefix", token_value (token_prefix token))
            ∷ [])
          b,
    )
    else (
      none,
      write_log "capability: validated"
          (("scope", text_value scope) ∷ ("token_prefix", token_value (token_prefix token)) ∷ []) b,
    )

-- `ctx_err` is what `ctx.Err()` returns.
unfoldable pub validate :
    Option Error → Bytes → String → ℕ → ℕ → (Broker → Broker) → Broker → Option BrokerError × Broker
unfolding validate_entry
validate ctx_err token scope now now' between b = elim ctx_err [
  | some e ↦ (some (context_error e), b)
  | none ↦ if b.closed then (some broker_closed, b) else elim (b.tokens token) [
    | none ↦ (some invalid_token, b)
    | some e ↦ validate_entry e token scope now now' between b
  ]
]

validate_org_entry :
    Entry
    → Bytes
    → String
    → String
    → ℕ
    → ℕ
    → (Broker → Broker)
    → Broker
    → Option BrokerError × Broker
unfolding drop_expired write_log token_prefix
validate_org_entry e token scope organization_id now now' between b =
    if expired_at e now
    then (
      some token_expired,
      write_log "capability: expired"
          (("scope", text_value e.scope)
            ∷ ("organization_id", text_value e.organization_id)
            ∷ ("token_prefix", token_value (token_prefix token))
            ∷ [])
          (drop_expired token now' (between b)),
    )
    else if not (e.scope == scope)
    then (
      some scope_mismatch,
      write_log "capability: scope_mismatch"
          (("expected_scope", text_value scope)
            ∷ ("organization_id", text_value e.organization_id)
            ∷ ("token_prefix", token_value (token_prefix token))
            ∷ [])
          b,
    )
    else if not (e.organization_id == organization_id)
    then (
      some organization_mismatch,
      write_log "capability: organization_mismatch"
          (("scope", text_value scope)
            ∷ ("expected_organization_id", text_value organization_id)
            ∷ ("token_prefix", token_value (token_prefix token))
            ∷ [])
          b,
    )
    else (
      none,
      write_log "capability: validated"
          (("scope", text_value scope)
            ∷ ("organization_id", text_value organization_id)
            ∷ ("token_prefix", token_value (token_prefix token))
            ∷ [])
          b,
    )

unfoldable pub validate_for_org :
    Option Error
    → Bytes
    → String
    → String
    → ℕ
    → ℕ
    → (Broker → Broker)
    → Broker
    → Option BrokerError × Broker
unfolding validate_org_entry
validate_for_org ctx_err token scope organization_id now now' between b = elim ctx_err [
  | some e ↦ (some (context_error e), b)
  | none ↦
      if organization_id == ""
      then (some invalid_organization, b)
      else if b.closed
      then (some broker_closed, b)
      else elim (b.tokens token) [
        | none ↦ (some invalid_token, b)
        | some e ↦ validate_org_entry e token scope organization_id now now' between b
      ]
]

-- The critical section of `Revoke`.
unfoldable pub remove_token : Bytes → Broker → Broker
remove_token token b = record b { tokens = delete token b.tokens }

unfoldable pub revoke : Bytes → Broker → Option BrokerError × Broker
unfolding remove_token write_log token_prefix
revoke token b = if b.closed then (some broker_closed, b) else (
  none,
  write_log "capability: revoked" (("token_prefix", token_value (token_prefix token)) ∷ [])
      (remove_token token b),
)

-- `Close`, once: `between` is what other goroutines, the reaper included, do before the map is
-- wiped.
unfoldable pub close : (Broker → Broker) → Broker → Broker
unfolding set_closed wipe write_log
close between b =
    if b.close_done then b else write_log "capability: closed" [] (wipe (between (set_closed b)))
