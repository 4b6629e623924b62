-- ===== src/Approval/ActionId.antt =====
-- core/pkg/approval/card.go: the action id that the buttons of the approval card carry. The printing
-- and the parsing of a UUID are parameters.
use Prim.Native.Char.{Char, code}
use watchkeepers.Prelude.{
  String, ◌≡◌, ◌≢◌, refl, ◌∙◌, sym, ap, Option, none, some, if◌then◌else◌, ◌==◌, ==_ne, string_eq,
  number_eq, Bool-cases, Option-cases, inl, inr, arith, eq_iff, ◌↔◌,
}
use mathlib.Core.Path.{subst}
use text.Mathlib.TextEquality.{Char-path}
use watchkeepers.Go.Errors.{sentinel, wrap, wrap_two, Result, ok, err}
use watchkeepers.Go.Text.{concat}
use watchkeepers.Go.Uuid.{Uuid, nil_uuid}
use watchkeepers.Approval.{err_invalid_action_id}

abbrev pub approval_action_id_prefix : String
approval_action_id_prefix = "tool_approval"

abbrev pub approval_action_id_separator : Char
approval_action_id_separator = ":"

-- `strings.SplitN(s, ":", 2)`, where it gives two parts.
cut : String → Option (String × String)
cut String.[] = none
cut (String.◌∷◌ c s) =
    let rest = cut s in
    if code c == code approval_action_id_separator
    then some (String.[], s)
    else elim rest [ none ↦ none | some p ↦ some (String.◌∷◌ c p.0, p.1) ]

unfoldable pub encode_approval_action_id : (Uuid → String) → Uuid → String
encode_approval_action_id print id =
    if id == nil_uuid then "" else concat "tool_approval:" (print id)

bad_action_id : String → Result Uuid
bad_action_id message = err (wrap message (sentinel err_invalid_action_id))

parsed : Result Uuid → Result Uuid
unfolding bad_action_id
parsed (err e) = err (wrap_two "%w: %w" (sentinel err_invalid_action_id) e)
parsed (ok id) = if id == nil_uuid then bad_action_id "%w: proposal id is nil uuid" else ok id

decoded : (String → Result Uuid) → String × String → Result Uuid
unfolding parsed bad_action_id
decoded parse (head, rest) =
    if head == approval_action_id_prefix
    then if rest == "" then bad_action_id "%w: empty proposal id" else parsed (parse rest)
    else bad_action_id "%w: bad prefix %q"

unfoldable pub decode_approval_action_id : (String → Result Uuid) → String → Result Uuid
unfolding cut decoded bad_action_id
decode_approval_action_id parse s = elim (cut s) [
  | none ↦ bad_action_id "%w: expected 2 parts, got %d"
  | some p ↦ decoded parse p
]

-- What `cut` finds is the text before and after a separator.
cut_sound : (s : String) (p : String × String) → cut s ≡ some p → s ≡ concat p.0 (concat ":" p.1)
unfolding cut
cut_sound String.[] p h = cc
cut_sound (String.◌∷◌ c s) p h = elim (Bool-cases (code c == code approval_action_id_separator)) [
  | inl e ↦
      let q : some (String.[], s) ≡ some p = rw e at h in
      let found : (String.[], s) ≡ p = ground (arith, q) in
      ap (λ d. String.◌∷◌ d s)
        (Char-path c approval_action_id_separator ((number_eq.same_iff _ _).0 e))
      ∙ ap (λ (r : String × String). concat r.0 (concat ":" r.1)) found
  | inr e ↦ elim (Option-cases (cut s)) [
    | inl n ↦ let q : none ≡ some p = rw (e, n) at h in cc
    | inr (r, f) ↦
        let q : some (String.◌∷◌ c r.0, r.1) ≡ some p = rw (e, f) at h in
        let found : (String.◌∷◌ c r.0, r.1) ≡ p = ground (arith, q) in
        ap (λ t. String.◌∷◌ c t) (cut_sound s r f)
        ∙ ap (λ (r : String × String). concat r.0 (concat ":" r.1)) found
  ]
]

cut_prefix :
    (rest : String) → cut (concat "tool_approval:" rest) ≡ some (approval_action_id_prefix, rest)
unfolding cut
cut_prefix rest = refl

-- What a decoded action id consists of.
pub record Decodes (parse : String → Result Uuid) (s : String) (id : Uuid) : Type 0 where
  pub rest : String
  pub shape : s ≡ concat "tool_approval:" rest
  pub named : rest ≢ ""
  pub parses : parse rest ≡ ok id
  pub real : id ≢ nil_uuid

parsed_ok : (r : Result Uuid) (id : Uuid) → parsed r ≡ ok id → (r ≡ ok id) × (id ≢ nil_uuid)
unfolding parsed bad_action_id
parsed_ok (err e) id h = cc
parsed_ok (ok j) id h = elim (Bool-cases (j == nil_uuid)) [
  | inl e ↦
      let bad : ◌≡◌ {A = Result Uuid}
          (err (wrap "%w: proposal id is nil uuid" (sentinel err_invalid_action_id))) (ok id) =
        rw e at h in
      cc
  | inr e ↦
      let q : ◌≡◌ {A = Result Uuid} (ok j) (ok id) = rw e at h in
      let same : j ≡ id = ground (arith, q) in (q, λ z. ground (arith, e, same ∙ z))
]

decoded_ok :
    (parse : String → Result Uuid) (s : String) (p : String × String) (id : Uuid)
    → s ≡ concat p.0 (concat ":" p.1)
    → decoded parse p ≡ ok id
    → Decodes parse s id
unfolding decoded bad_action_id
decoded_ok parse s (head, rest) id shape h = elim (Bool-cases (head == approval_action_id_prefix)) [
  | inr n ↦ let bad : bad_action_id "%w: bad prefix %q" ≡ ok id = rw n at h in cc
  | inl y ↦ elim (Bool-cases (rest == "")) [
    | inl e ↦ let bad : bad_action_id "%w: empty proposal id" ≡ ok id = rw (y, e) at h in cc
    | inr e ↦
        let q : parsed (parse rest) ≡ ok id = rw (y, e) at h in
        let (a, b) = parsed_ok (parse rest) id q in
        record {
          rest = rest;
          shape =
              shape
              ∙ ap (λ t. concat t (concat ":" rest)) ((eq_iff head approval_action_id_prefix).0 y);
          named = λ z. cc (e, (eq_iff rest "").1 z);
          parses = a;
          real = b;
        }
  ]
]

decode_cut :
    (parse : String → Result Uuid) (s : String) (p : String × String)
    → cut s ≡ some p
    → decode_approval_action_id parse s ≡ decoded parse p
unfolding decode_approval_action_id
decode_cut parse s p e = rw (e, decode_approval_action_id) refl

decode_uncut :
    (parse : String → Result Uuid) (s : String)
    → cut s ≡ none
    → decode_approval_action_id parse s ≡ bad_action_id "%w: expected 2 parts, got %d"
unfolding decode_approval_action_id
decode_uncut parse s e = rw (e, decode_approval_action_id) refl

decode_sound :
    (parse : String → Result Uuid) (s : String) (id : Uuid)
    → decode_approval_action_id parse s ≡ ok id
    → Decodes parse s id
unfolding bad_action_id
decode_sound parse s id h = elim (Option-cases (cut s)) [
  | inl n ↦ cc (decode_uncut parse s n, h)
  | inr (p, e) ↦ decoded_ok parse s p id (cut_sound s p e) (sym (decode_cut parse s p e) ∙ h)
]

decode_complete :
    (parse : String → Result Uuid) (rest : String) (id : Uuid)
    → rest ≢ ""
    → parse rest ≡ ok id
    → id ≢ nil_uuid
    → decode_approval_action_id parse (concat "tool_approval:" rest) ≡ ok id
unfolding decoded parsed
decode_complete parse rest id named parses real =
    decode_cut parse (concat "tool_approval:" rest) (approval_action_id_prefix, rest)
      (cut_prefix rest)
    ∙ rw (==_ne rest "" named, parses, ==_ne id nil_uuid real) refl

-- `DecodeApprovalActionID` accepts exactly the texts that are the prefix, the separator and a text
-- that is not empty and parses to an id that is not nil, and gives that id.
decode_iff :
    (parse : String → Result Uuid) (s : String) (id : Uuid)
    → (decode_approval_action_id parse s ≡ ok id) ↔ Decodes parse s id
decode_iff parse s id = (
  decode_sound parse s id,
  λ d.
      subst (λ t. decode_approval_action_id parse t ≡ ok id) (sym d.shape)
        (decode_complete parse d.rest id d.named d.parses d.real),
)

-- For an id that is not nil and whose printed text is not empty and parses back to it, the decoder
-- gives the id that the encoder was given.
decode-encode :
    (print : Uuid → String) (parse : String → Result Uuid) (id : Uuid)
    → print id ≢ ""
    → parse (print id) ≡ ok id
    → id ≢ nil_uuid
    → decode_approval_action_id parse (encode_approval_action_id print id) ≡ ok id
decode-encode print parse id named parses real =
    unfold encode_approval_action_id in
    rw (==_ne id nil_uuid real) (decode_complete parse (print id) id named parses real)
