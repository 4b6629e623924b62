-- ===== src/Auth/Accepted.antt =====
-- Which tokens the verifier accepts, and the database role of their scope.
use watchkeepers.Prelude.{
  ℕ, ◌≡◌, refl, sym, ap, ◌∙◌, ℤ, pos, negsuc, String, Bytes, true, false, some, List, [], ◌∷◌,
  Option-cases, Bool-cases, inl, inr, ◌↔◌, ◌==◌, number_eq, string_eq, bytes_eq, eq_iff,
  same_bytes_iff, arith,
}
use watchkeepers.Go.Errors.{ok, err, Result-cases}
use watchkeepers.Go.Text.{split}
use watchkeepers.Auth.{
  Claim, Header, jwt_header, Payload, Codec, Signer, valid_scope, before, claim_of, check_payload,
  three, is_jwt_header, signing_input, check_signed, check_header, verify, malformed, is_zero,
}

before-positive : (now : ℕ) (z : ℤ) → before now z ≡ true → is_zero z ≡ false
unfolding before
before-positive now (pos n) h = ground arith
before-positive now (negsuc n) h = refl

-- What a payload has that is accepted as a claim.
pub record Fits (v : Signer) (now : ℕ) (p : Payload) (claim : Claim) : Type 0 where
  pub from_issuer : p.issuer ≡ v.issuer
  pub unexpired : before now p.expires_at ≡ true
  pub in_scope : valid_scope p.scope ≡ true
  pub same : claim ≡ claim_of p

check_payload-Fits :
    (v : Signer) (now : ℕ) (p : Payload) (claim : Claim)
    → check_payload v now p ≡ ok claim
    → Fits v now p claim
unfolding check_payload malformed
check_payload-Fits v now p claim h = elim (Bool-cases (p.issuer == v.issuer)) [
  | inr a ↦ let bad : err _ ≡ ok claim = rw (a, check_payload) at h in absurd cc
  | inl a ↦ elim (Bool-cases (is_zero p.expires_at)) [
    | inl b ↦ let bad : err _ ≡ ok claim = rw (a, b, check_payload) at h in absurd cc
    | inr b ↦ elim (Bool-cases (before now p.expires_at)) [
      | inr d ↦ let bad : err _ ≡ ok claim = rw (a, b, d, check_payload) at h in absurd cc
      | inl d ↦ elim (Bool-cases (valid_scope p.scope)) [
        | inr e ↦ let bad : err _ ≡ ok claim = rw (a, b, d, e, check_payload) at h in absurd cc
        | inl e ↦
            let q : ok (claim_of p) ≡ ok claim = rw (a, b, d, e, check_payload) at h in
            record {
              from_issuer = (eq_iff p.issuer v.issuer).0 a;
              unexpired = d;
              in_scope = e;
              same = cc;
            }
      ]
    ]
  ]
]

Fits-check_payload :
    (v : Signer) (now : ℕ) (p : Payload) (claim : Claim)
    → Fits v now p claim
    → check_payload v now p ≡ ok claim
unfolding check_payload
Fits-check_payload v now p claim f =
    let a : (p.issuer == v.issuer) ≡ true = (eq_iff p.issuer v.issuer).1 f.from_issuer in
    rw (a, before-positive now p.expires_at f.unexpired, f.unexpired, f.in_scope, check_payload)
      (ap ok (sym f.same))

jwt_header_lem : (h : Header) → is_jwt_header h ≡ true → h ≡ jwt_header
jwt_header_lem h e = elim (Bool-cases (h.alg == jwt_header.alg)) [
  | inr n ↦ let bad : false ≡ true = rw n at e in absurd cc
  | inl y ↦
      let z : (h.typ == jwt_header.typ) ≡ true = rw y at e in
      let same_alg = (eq_iff h.alg jwt_header.alg).0 y in
      let same_typ = (eq_iff h.typ jwt_header.typ).0 z in cc (same_alg, same_typ)
]

three_lem : (ws : List String) (a b d : String) → three ws ≡ some (a, b, d) → ws ≡ a ∷ b ∷ d ∷ []
three_lem [] a b d h = absurd cc
three_lem (x ∷ []) a b d h = absurd cc
three_lem (x ∷ y ∷ []) a b d h = absurd cc
three_lem (x ∷ y ∷ z ∷ []) a b d h = cc
three_lem (x ∷ y ∷ z ∷ w ∷ ws) a b d h = absurd cc

module _ (c : Codec) where
  -- The header segment is the fixed header.
  pub record HasHeader (head : String) : Type 0 where
    pub json : Bytes
    pub decodes : c.decode head ≡ ok json
    pub parses : c.unmarshal_header json ≡ ok jwt_header

  -- The third segment is the tag of the first two, and the second holds a payload that fits.
  pub record IsSigned (v : Signer) (now : ℕ) (head body sig : String) (claim : Claim) : Type 0 where
    pub json : Bytes
    pub payload : Payload
    pub decodes : c.decode body ≡ ok json
    pub parses : c.unmarshal_payload json ≡ ok payload
    pub tag : c.decode sig ≡ ok (c.hmac v.key (signing_input head body))
    pub fits : Fits v now payload claim

  pub record Accepted (v : Signer) (now : ℕ) (token : String) (claim : Claim) : Type 0 where
    pub head : String
    pub body : String
    pub sig : String
    pub segments : split "." token ≡ head ∷ body ∷ sig ∷ []
    pub has_header : HasHeader head
    pub is_signed : IsSigned v now head body sig claim

  check_header-HasHeader :
      (head : String) (h : Header) → check_header c head ≡ ok h → HasHeader head
  unfolding check_header malformed
  check_header-HasHeader head h e = elim (Result-cases (c.decode head)) [
    | inl (x, a) ↦ let bad : err _ ≡ ok h = rw (a, check_header) at e in absurd cc
    | inr (json, a) ↦ elim (Result-cases (c.unmarshal_header json)) [
      | inl (x, b) ↦ let bad : err _ ≡ ok h = rw (a, check_header, b) at e in absurd cc
      | inr (g, b) ↦ elim (Bool-cases (is_jwt_header g)) [
        | inr n ↦ let bad : err _ ≡ ok h = rw (a, check_header, b, n) at e in absurd cc
        | inl y ↦ record { json = json; decodes = a; parses = b ∙ ap ok (jwt_header_lem g y) }
      ]
    ]
  ]

  HasHeader-check_header : (head : String) → HasHeader head → check_header c head ≡ ok jwt_header
  unfolding check_header
  HasHeader-check_header head h = rw (h.decodes, check_header) (rw (h.parses, check_header))

  check_signed-IsSigned :
      (v : Signer) (now : ℕ) (head body sig : String) (claim : Claim)
      → check_signed c v now head body sig ≡ ok claim
      → IsSigned v now head body sig claim
  unfolding check_signed malformed
  check_signed-IsSigned v now head body sig claim e = elim (Result-cases (c.decode body)) [
    | inl (x, a) ↦ let bad : err _ ≡ ok claim = rw (a, check_signed) at e in absurd cc
    | inr (json, a) ↦ elim (Result-cases (c.decode sig)) [
      | inl (x, b) ↦ let bad : err _ ≡ ok claim = rw (a, check_signed, b) at e in absurd cc
      | inr (tag, b) ↦ elim (Bool-cases (c.hmac v.key (signing_input head body) == tag)) [
        | inr n ↦ let bad : err _ ≡ ok claim = rw (a, check_signed, b, n) at e in absurd cc
        | inl y ↦ elim (Result-cases (c.unmarshal_payload json)) [
          | inl (x, d) ↦
              let bad : err _ ≡ ok claim = rw (a, check_signed, b, y, d) at e in absurd cc
          | inr (p, d) ↦
              let q : check_payload v now p ≡ ok claim = rw (a, check_signed, b, y, d) at e in
              record {
                json = json;
                payload = p;
                decodes = a;
                parses = d;
                tag = b ∙ ap ok (sym ((same_bytes_iff _ tag).0 y));
                fits = check_payload-Fits v now p claim q;
              }
        ]
      ]
    ]
  ]

  IsSigned-check_signed :
      (v : Signer) (now : ℕ) (head body sig : String) (claim : Claim)
      → IsSigned v now head body sig claim
      → check_signed c v now head body sig ≡ ok claim
  unfolding check_signed
  IsSigned-check_signed v now head body sig claim s =
      let same = (same_bytes_iff (c.hmac v.key (signing_input head body)) _).1 refl in
      rw (s.decodes, check_signed)
        (rw (s.tag, check_signed)
          (rw (same, s.parses, check_signed) (Fits-check_payload v now s.payload claim s.fits)))

  verify-Accepted :
      (v : Signer) (now : ℕ) (token : String) (claim : Claim)
      → verify c v now token ≡ ok claim
      → Accepted v now token claim
  unfolding verify malformed
  verify-Accepted v now token claim e = elim (Option-cases (three (split "." token))) [
    | inl a ↦ let bad : err _ ≡ ok claim = rw (a, verify) at e in absurd cc
    | inr ((head, body, sig), a) ↦ elim (Result-cases (check_header c head)) [
      | inl (x, b) ↦ let bad : err x ≡ ok claim = rw (a, verify, b) at e in absurd cc
      | inr (h, b) ↦
          let q : check_signed c v now head body sig ≡ ok claim = rw (a, verify, b) at e in
          record {
            head = head;
            body = body;
            sig = sig;
            segments = three_lem (split "." token) head body sig a;
            has_header = check_header-HasHeader head h b;
            is_signed = check_signed-IsSigned v now head body sig claim q;
          }
    ]
  ]

  Accepted-verify :
      (v : Signer) (now : ℕ) (token : String) (claim : Claim)
      → Accepted v now token claim
      → verify c v now token ≡ ok claim
  unfolding verify
  Accepted-verify v now token claim a =
      rw (a.segments, verify)
        (rw (HasHeader-check_header a.head a.has_header, verify)
          (IsSigned-check_signed v now a.head a.body a.sig claim a.is_signed))

  -- The verifier gives a claim for a token exactly when the token is three segments, the first the
  -- fixed header, the third the tag of the first two under the verifier's key, the second a payload of
  -- the verifier's issuer that has not expired and whose scope has one of the three forms, and the claim
  -- is that payload's.
  pub verify_iff :
      (v : Signer) (now : ℕ) (token : String) (claim : Claim)
      → (verify c v now token ≡ ok claim) ↔ Accepted v now token claim
  verify_iff v now token claim =
      (verify-Accepted v now token claim, Accepted-verify v now token claim)
