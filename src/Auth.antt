-- ===== src/Auth.antt =====
-- core/internal/keep/auth: the tokens of the keep server, auth.go and the issuer of testing.go; and
-- RoleForScope of core/internal/keep/db/scope.go. Base64, JSON and HMAC-SHA256 are a `Codec`. Clocks
-- are natural numbers of nanoseconds, NumericDates are int64 seconds. Texts are code points: the
-- prefixes are ASCII, so that a cut at their length is the same in bytes.
pub mod Accepted
pub mod Minted
pub mod Roles
mod Tests
use watchkeepers.Prelude.{
  ℕ, suc, ◌+◌, ◌*◌, ◌/◌, ◌^◌, ℤ, pos, negsuc, String, Bytes, Bool, true, false, ◌&&◌, Option, none,
  some, List, [], ◌∷◌, length, leb, ltb, if◌then◌else◌, ◌==◌, number_eq, string_eq, bytes_eq,
}
use watchkeepers.Go.Errors.{Error, sentinel, text, wrap, Result, ok, err}
use watchkeepers.Go.Text.{concat, first_runes, rune_count, cut_prefix, split}

abbrev pub min_signing_key_bytes : ℕ
min_signing_key_bytes = 32

abbrev pub err_malformed : String
err_malformed = "ErrMalformed"

abbrev pub err_bad_signature : String
err_bad_signature = "ErrBadSignature"

abbrev pub err_bad_issuer : String
err_bad_issuer = "ErrBadIssuer"

abbrev pub err_expired : String
err_expired = "ErrExpired"

abbrev pub err_bad_scope : String
err_bad_scope = "ErrBadScope"

pub record Claim : Type 0 where
  pub subject : String
  pub scope : String
  pub organization_id : String
  pub issuer : String
  pub expires_at : ℤ
  pub issued_at : ℤ

pub record Header : Type 0 where
  pub alg : String
  pub typ : String

abbrev pub jwt_header : Header
jwt_header = record { alg = "HS256"; typ = "JWT" }

pub record Payload : Type 0 where
  pub subject : String
  pub scope : String
  pub organization_id : String
  pub issuer : String
  pub expires_at : ℤ
  pub issued_at : ℤ

pub record Codec : Type 0 where
  pub encode : Bytes → String
  pub decode : String → Result Bytes
  pub marshal_header : Header → Result Bytes
  pub unmarshal_header : Bytes → Result Header
  pub marshal_payload : Payload → Result Bytes
  pub unmarshal_payload : Bytes → Result Payload
  pub hmac : Bytes → String → Bytes

-- What the verifier and the issuer keep.
pub record Signer : Type 0 where
  pub key : Bytes
  pub issuer : String

unfoldable pub new_hmac_verifier : Bytes → String → Result Signer
new_hmac_verifier key issuer =
    if ltb (length key) min_signing_key_bytes
    then err (text "auth: signing key must be >= %d bytes, got %d")
    else if issuer == ""
    then err (text "auth: issuer must not be empty")
    else ok (record { key = key; issuer = issuer })

abbrev has_rest : Option String → Bool
has_rest none = false
has_rest (some rest) = if rest == "" then false else true

unfoldable pub valid_scope : String → Bool
valid_scope s =
    if s == "org"
    then true
    else if has_rest (cut_prefix s "user:")
    then true
    else has_rest (cut_prefix s "agent:")

-- `len(s) > len(prefix) && s[:len(prefix)] == prefix`.
abbrev goes_on : String → String → Bool
goes_on s prefix =
    ltb (rune_count prefix) (rune_count s) && first_runes (rune_count prefix) s == prefix

unfoldable pub role_for_scope : String → Result String
role_for_scope scope =
    if scope == "org"
    then ok "wk_org_role"
    else if goes_on scope "user:"
    then ok "wk_user_role"
    else if goes_on scope "agent:"
    then ok "wk_agent_role"
    else err (wrap "%w: %q" (sentinel err_bad_scope))

-- `now.Before(time.Unix(exp, 0))`: `time.Unix` counts from the year 1, in 64 bits that wrap.
unfoldable pub before : ℕ → ℤ → Bool
before now (pos s) = ltb (s + 62135596800) (2 ^ 63) && ltb now (s * 1000000000)
before now (negsuc n) = false

abbrev is_zero : ℤ → Bool
is_zero (pos n) = n == 0
is_zero (negsuc n) = false

malformed : {A : Type 0} → String → Result A
malformed message = err (wrap message (sentinel err_malformed))

abbrev pub claim_of : Payload → Claim
claim_of p = record {
  subject = p.subject;
  scope = p.scope;
  organization_id = p.organization_id;
  issuer = p.issuer;
  expires_at = p.expires_at;
  issued_at = p.issued_at;
}

pub check_payload : Signer → ℕ → Payload → Result Claim
unfolding valid_scope before malformed
check_payload v now p =
    if p.issuer == v.issuer
    then if is_zero p.expires_at
      then malformed "%w: missing exp"
      else if before now p.expires_at
      then if valid_scope p.scope
        then ok (claim_of p)
        else err (wrap "%w: %q" (sentinel err_bad_scope))
      else err (sentinel err_expired)
    else err (wrap "%w: got %q" (sentinel err_bad_issuer))

abbrev pub three : List String → Option (String × String × String)
three (a ∷ b ∷ c ∷ []) = some (a, b, c)
three _ = none

abbrev pub is_jwt_header : Header → Bool
is_jwt_header h = h.alg == jwt_header.alg && h.typ == jwt_header.typ

abbrev pub signing_input : String → String → String
signing_input head body = concat head (concat "." body)

module _ (c : Codec) where
  -- From the decoding of the payload on.
  pub check_signed : Signer → ℕ → String → String → String → Result Claim
  unfolding malformed check_payload
  check_signed v now head body sig = elim (c.decode body) [
    | err e ↦ malformed "%w: payload base64: %v"
    | ok payload_json ↦ elim (c.decode sig) [
      | err e ↦ malformed "%w: signature base64: %v"
      | ok sig_bytes ↦
          if c.hmac v.key (signing_input head body) == sig_bytes
          then elim (c.unmarshal_payload payload_json) [
            | err e ↦ malformed "%w: payload json: %v"
            | ok p ↦ check_payload v now p
          ]
          else err (sentinel err_bad_signature)
    ]
  ]

  pub check_header : String → Result Header
  unfolding malformed
  check_header head = elim (c.decode head) [
    | err e ↦ malformed "%w: header base64: %v"
    | ok header_json ↦ elim (c.unmarshal_header header_json) [
      | err e ↦ malformed "%w: header json: %v"
      | ok h ↦ if is_jwt_header h then ok h else malformed "%w: header alg=%q typ=%q"
    ]
  ]

  -- An empty token has one segment, so that the split alone decides.
  unfoldable pub verify : Signer → ℕ → String → Result Claim
  unfolding malformed check_signed check_header split
  verify v now token = elim (three (split "." token)) [
    | none ↦ malformed "%w: want three segments"
    | some (head, body, sig) ↦ elim (check_header head) [
      | err e ↦ err e
      | ok h ↦ check_signed v now head body sig
    ]
  ]

  unfoldable pub sign : Bytes → String → String
  sign key input = c.encode (c.hmac key input)

  encode_segment : Result Bytes → Result String
  encode_segment (err e) = err e
  encode_segment (ok raw) = ok (c.encode raw)

  abbrev pub minted_payload : Signer → ℕ → ℕ → Claim → Payload
  minted_payload ti now ttl claim = record {
    subject = claim.subject;
    scope = claim.scope;
    organization_id = claim.organization_id;
    issuer = ti.issuer;
    expires_at = pos ((now + ttl) / 1000000000);
    issued_at = pos (now / 1000000000);
  }

  -- `TestIssuer.Issue`, for a lifetime that is not negative.
  unfoldable pub issue : Signer → ℕ → ℕ → Claim → Result String
  unfolding sign encode_segment
  issue ti now ttl claim = elim (encode_segment (c.marshal_header jwt_header)) [
    | err e ↦ err e
    | ok head ↦ elim (encode_segment (c.marshal_payload (minted_payload ti now ttl claim))) [
      | err e ↦ err e
      | ok body ↦
          ok (concat (signing_input head body) (concat "." (sign ti.key (signing_input head body))))
    ]
  ]
