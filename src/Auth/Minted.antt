-- ===== src/Auth/Minted.antt =====
-- A token that the issuer mints is one that the verifier accepts.
use Prim.Native.Char.{Char, code}
use watchkeepers.Prelude.{
  ℕ, ◌+◌, ◌/◌, ◌≡◌, refl, sym, ap, ◌∙◌, pos, String, Bytes, Bool, true, false, [], ◌∷◌, Bool-cases,
  inl, inr, ◌==◌, number_eq, if◌then◌else◌,
}
use watchkeepers.Go.Errors.{ok, err, Result-cases}
use watchkeepers.Go.Text.{concat, split}
use watchkeepers.Auth.{
  Claim, jwt_header, Payload, Codec, Signer, valid_scope, before, claim_of, signing_input, verify,
  sign, encode_segment, minted_payload, issue,
}
use watchkeepers.Auth.Accepted.{verify_iff}

-- The character does not occur.
abbrev pub lacks : Char → String → Bool
lacks d String.[] = true
lacks d (String.◌∷◌ c s) = let rest = lacks d s in if code c == code d then false else rest

lacks_tail :
    (d c : Char) (s : String)
    → lacks d (String.◌∷◌ c s) ≡ true
    → ((code c == code d) ≡ false) × (lacks d s ≡ true)
lacks_tail d c s h = elim (Bool-cases (code c == code d)) [
  | inl e ↦ let bad : false ≡ true = rw e at h in absurd cc
  | inr e ↦ (e, rw e at h)
]

split-lacks : (d : Char) (w : String) → lacks d w ≡ true → split d w ≡ w ∷ []
unfolding split
split-lacks d String.[] h = refl
split-lacks d (String.◌∷◌ c s) h = let (e, t) = lacks_tail d c s h in rw (e, split-lacks d s t)

split-concat :
    (d : Char) (w rest : String)
    → lacks d w ≡ true
    → split d (concat w (String.◌∷◌ d rest)) ≡ w ∷ split d rest
unfolding split
split-concat d String.[] rest h = rw ((number_eq.same_iff (code d) (code d)).1 refl)
split-concat d (String.◌∷◌ c s) rest h =
    let (e, t) = lacks_tail d c s h in rw (e, split-concat d s rest t)

concat_assoc : (a b d : String) → concat (concat a b) d ≡ concat a (concat b d)
concat_assoc String.[] b d = refl
concat_assoc (String.◌∷◌ c a) b d = ap (λ t. String.◌∷◌ c t) (concat_assoc a b d)

-- What base64url and JSON keep: decoding undoes encoding, and a base64url text has no dot.
pub record CodecLaws (c : Codec) : Type 0 where
  pub decode-encode : (b : Bytes) → c.decode (c.encode b) ≡ ok b
  pub lacks_dot : (b : Bytes) → lacks "." (c.encode b) ≡ true
  pub header_back :
      (b : Bytes) → c.marshal_header jwt_header ≡ ok b → c.unmarshal_header b ≡ ok jwt_header
  pub payload_back :
      (p : Payload) (b : Bytes) → c.marshal_payload p ≡ ok b → c.unmarshal_payload b ≡ ok p

module _ (c : Codec) (laws : CodecLaws c) where
  three_segments :
      (h p s : Bytes)
      → split "." (concat (signing_input (c.encode h) (c.encode p)) (concat "." (c.encode s)))
        ≡ c.encode h ∷ c.encode p ∷ c.encode s ∷ []
  three_segments h p s =
      ap (split ".") (concat_assoc (c.encode h) (concat "." (c.encode p)) (concat "." (c.encode s)))
      ∙ split-concat "." (c.encode h) _ (laws.lacks_dot h)
      ∙ ap (λ ws. c.encode h ∷ ws)
          (split-concat "." (c.encode p) (c.encode s) (laws.lacks_dot p)
            ∙ ap (λ ws. c.encode p ∷ ws) (split-lacks "." (c.encode s) (laws.lacks_dot s)))

  -- With a base64url and a JSON that decode what they encode, a token that the issuer mints for a claim
  -- with a scope of one of the three forms is accepted, by a verifier with the same key and issuer and
  -- at every time before its expiry in whole seconds, as that claim with the issuer and the times of
  -- the minting.
  pub verify-issue :
      (v : Signer) (now ttl : ℕ) (claim : Claim) (token : String) (later : ℕ)
      → issue c v now ttl claim ≡ ok token
      → valid_scope claim.scope ≡ true
      → before later (pos ((now + ttl) / 1000000000)) ≡ true
      → verify c v later token ≡ ok (claim_of (minted_payload c v now ttl claim))
  unfolding issue encode_segment sign
  verify-issue v now ttl claim token later i scope unexpired =
      elim (Result-cases (c.marshal_header jwt_header)) [
        | inl (e, a) ↦ let bad : err e ≡ ok token = rw (a, issue) at i in absurd cc
        | inr (h, a) ↦ elim (Result-cases (c.marshal_payload (minted_payload c v now ttl claim))) [
          | inl (e, b) ↦ let bad : err e ≡ ok token = rw (a, issue, b) at i in absurd cc
          | inr (p, b) ↦
              let input = signing_input (c.encode h) (c.encode p) in
              let q : ok (concat input (concat "." (c.encode (c.hmac v.key input)))) ≡ ok token =
                rw (a, issue, b) at i in
              let minted : concat input (concat "." (c.encode (c.hmac v.key input))) ≡ token = cc in
              (verify_iff c v later token (claim_of (minted_payload c v now ttl claim))).1 (record {
                head = c.encode h;
                body = c.encode p;
                sig = c.encode (c.hmac v.key input);
                segments = ap (split ".") (sym minted) ∙ three_segments h p (c.hmac v.key input);
                has_header = record {
                  json = h;
                  decodes = laws.decode-encode h;
                  parses = laws.header_back h a;
                };
                is_signed = record {
                  json = p;
                  payload = minted_payload c v now ttl claim;
                  decodes = laws.decode-encode p;
                  parses = laws.payload_back (minted_payload c v now ttl claim) p b;
                  tag = laws.decode-encode (c.hmac v.key input);
                  fits = record {
                    from_issuer = refl;
                    unexpired = unexpired;
                    in_scope = scope;
                    same = refl;
                  };
                };
              })
        ]
      ]
