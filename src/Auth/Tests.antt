-- ===== src/Auth/Tests.antt =====
-- A token that is minted and verified with a small codec, and the theorems at it.
use Prim.Native.Char.{code}
use watchkeepers.Prelude.{
  same_bytes, ℕ, zero, suc, ◌+◌, ◌≡◌, refl, sym, ap, ◌∙◌, ℤ, pos, negsuc, String, Bytes, true,
  false, ◌&&◌, [], ◌∷◌, Bool-cases, inl, inr, ◌↔◌, ◌==◌, number_eq, string_eq, eq_iff, arith,
  if◌then◌else◌,
}
use watchkeepers.Go.Errors.{Result, ok, err, text, sentinel}
use watchkeepers.Go.Text.{rune_count, split}
use watchkeepers.Auth.{
  err_expired, Claim, jwt_header, Payload, Codec, Signer, valid_scope, role_for_scope, before,
  claim_of, verify, issue, sign, is_jwt_header,
}
use watchkeepers.Auth.Accepted.{Accepted, verify_iff}
use watchkeepers.Auth.Minted.{CodecLaws, lacks, verify-issue}
use watchkeepers.Auth.Roles.{valid_scope_iff}

-- A byte in unary, and a mark.
abbrev put_byte : ℕ → String → String
put_byte zero s = String.◌∷◌ "b" s
put_byte (suc n) s = String.◌∷◌ "a" (put_byte n s)

abbrev put_bytes : Bytes → String
put_bytes [] = ""
put_bytes (b ∷ bs) = put_byte b (put_bytes bs)

abbrev take_bytes : ℕ → String → Bytes
take_bytes k String.[] = []
take_bytes k (String.◌∷◌ c s) =
    let next = take_bytes 0 s in
    let more = take_bytes (k + 1) s in if code c == 98 then k ∷ next else more

take_put : (k n : ℕ) (s : String) → take_bytes k (put_byte n s) ≡ (k + n) ∷ take_bytes 0 s
take_put k zero s = ap (λ m. m ∷ take_bytes 0 s) (omega arith)
take_put k (suc n) s = take_put (k + 1) n s ∙ ap (λ m. m ∷ take_bytes 0 s) (omega arith)

take_puts : (b : Bytes) → take_bytes 0 (put_bytes b) ≡ b
take_puts [] = refl
take_puts (b ∷ bs) =
    take_put 0 b (put_bytes bs) ∙ rw (take_puts bs) (ap (λ m. m ∷ bs) (omega arith))

lacks_put : (n : ℕ) (s : String) → lacks "." s ≡ true → lacks "." (put_byte n s) ≡ true
lacks_put zero s h = h
lacks_put (suc n) s h = lacks_put n s h

lacks_puts : (b : Bytes) → lacks "." (put_bytes b) ≡ true
lacks_puts [] = refl
lacks_puts (b ∷ bs) = lacks_put b (put_bytes bs) (lacks_puts bs)

abbrev worker_payload : ℕ → ℕ → Payload
worker_payload e t = record {
  subject = "wk-1";
  scope = "user:7";
  organization_id = "org-1";
  issuer = "keep";
  expires_at = pos e;
  issued_at = pos t;
}

abbrev write_times : ℤ → ℤ → Result Bytes
write_times (pos e) (pos t) = ok (e ∷ t ∷ [])
write_times (pos e) (negsuc t) = err (text "json")
write_times (negsuc e) t = err (text "json")

-- It writes the payloads of one bearer.
abbrev write_payload : Payload → Result Bytes
write_payload p =
    if p.subject == "wk-1"
      && p.scope == "user:7"
      && p.organization_id == "org-1"
      && p.issuer == "keep"
    then write_times p.expires_at p.issued_at
    else err (text "json")

abbrev read_payload : Bytes → Result Payload
read_payload (e ∷ t ∷ []) = ok (worker_payload e t)
read_payload _ = err (text "json")

abbrev codec : Codec
codec = record {
  encode = put_bytes;
  decode = λ s. ok (take_bytes 0 s);
  marshal_header = λ h. if is_jwt_header h then ok (1 ∷ []) else err (text "json");
  unmarshal_header = λ b. ok jwt_header;
  marshal_payload = write_payload;
  unmarshal_payload = read_payload;
  hmac = λ key s. rune_count s ∷ key;
}

times_back :
    (e t : ℤ) (b : Bytes)
    → write_times e t ≡ ok b
    → read_payload b ≡ ok (record (worker_payload 0 0) { expires_at = e; issued_at = t })
times_back (pos e) (pos t) b h = let same : e ∷ t ∷ [] ≡ b = cc in ap read_payload (sym same)
times_back (pos e) (negsuc t) b h = absurd cc
times_back (negsuc e) t b h = absurd cc

payload_back : (p : Payload) (b : Bytes) → write_payload p ≡ ok b → read_payload b ≡ ok p
payload_back p b h =
    elim (Bool-cases (
      p.subject == "wk-1"
      && p.scope == "user:7"
      && p.organization_id == "org-1"
      && p.issuer == "keep")) [
        | inr n ↦ let bad : err (text "json") ≡ ok b = rw n at h in absurd cc
        | inl y ↦
            let times : write_times p.expires_at p.issued_at ≡ ok b = rw y at h in
            let subject : p.subject ≡ "wk-1" = (eq_iff p.subject "wk-1").0 (ground (arith, y)) in
            let scope : p.scope ≡ "user:7" = (eq_iff p.scope "user:7").0 (ground (arith, y)) in
            let organization : p.organization_id ≡ "org-1" =
              (eq_iff p.organization_id "org-1").0 (ground (arith, y)) in
            let issuer : p.issuer ≡ "keep" = (eq_iff p.issuer "keep").0 (ground (arith, y)) in
            times_back p.expires_at p.issued_at b times
            ∙ ap ok (cc (subject, scope, organization, issuer))
      ]

header_back :
    (b : Bytes) → codec.marshal_header jwt_header ≡ ok b → codec.unmarshal_header b ≡ ok jwt_header
header_back b h = refl

codec-Laws : CodecLaws codec
codec-Laws = record {
  decode-encode = λ b. ap ok (take_puts b);
  lacks_dot = lacks_puts;
  header_back = header_back;
  payload_back = payload_back;
}

abbrev keep : Signer
keep = record { key = 7 ∷ 8 ∷ []; issuer = "keep" }

abbrev bearer : Claim
bearer = record {
  subject = "wk-1";
  scope = "user:7";
  organization_id = "org-1";
  issuer = "";
  expires_at = pos 0;
  issued_at = pos 0;
}

abbrev verified : Claim
verified = claim_of (worker_payload 9 4)

abbrev token : String
token = "ab.aaaaaaaaabaaaab.aaaaaaaaaaaaaaaaaabaaaaaaabaaaaaaaab"

-- A token of 4.5 seconds, minted for 5 seconds: its expiry is cut to whole seconds.
verify-issue_example : verify codec keep 8999999999 token ≡ ok verified
unfolding issue sign valid_scope before
verify-issue_example =
    verify-issue codec codec-Laws keep 4500000000 5000000000 bearer token 8999999999 refl refl refl

verify_iff_example :
    (verify codec keep 8999999999 token ≡ ok verified)
    ↔ Accepted codec keep 8999999999 token verified
verify_iff_example = verify_iff codec keep 8999999999 token verified

too_late : verify codec keep 9000000000 token ≡ err (sentinel err_expired)
unfolding verify before split same_bytes
too_late = refl

valid_scope_iff_example :
    (valid_scope "agent:5" ≡ true) ↔ ((role : String) × role_for_scope "agent:5" ≡ ok role)
valid_scope_iff_example = valid_scope_iff "agent:5"

no_rest :
    (valid_scope "user:" ≡ false)
    × (valid_scope "agent:5" ≡ true)
    × (role_for_scope "agent:5" ≡ ok "wk_agent_role")
unfolding valid_scope role_for_scope
no_rest = (refl, refl, refl)
