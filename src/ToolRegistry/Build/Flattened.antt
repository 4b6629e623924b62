-- ===== src/ToolRegistry/Build/Flattened.antt =====
-- The flattened snapshot against the sources in their configured order.
use watchkeepers.Prelude.{
  ℕ, suc, ◌+◌, length-append, String, ◌≡◌, refl, sym, ◌∙◌, ap, Option, none, some, List, [], ◌∷◌,
  if◌then◌else◌, ◌==◌, string_eq, Bool-cases, Option-cases, inl, inr, length, Every, Every-append,
  arith,
}
use watchkeepers.ToolRegistry.{Manifest, EffectiveTool, ShadowedTool}
use watchkeepers.ToolRegistry.Loading.{FilePath}
use watchkeepers.ToolRegistry.Order.{find_key, DistinctKeys}
use watchkeepers.ToolRegistry.Keyed.{
  or_else, or_else-none, or_else_assoc, find_key-append, find_key-again, find_none-has_key,
  DistinctKeys-snoc, Indexes, empty-Indexes, put-Indexes,
}
use watchkeepers.ToolRegistry.Scan.{Env, manifest_name}
use watchkeepers.ToolRegistry.Scan.Kept.{directory_tools}
use watchkeepers.ToolRegistry.Effective.{tool_name_of}
use watchkeepers.ToolRegistry.Build.{Merge, empty_merge, merge_one, merge_source}

abbrev from_source : String → Manifest → EffectiveTool
from_source src m = record { source = src; manifest = m }

abbrev pub tool_from : String → Option Manifest → Option EffectiveTool
tool_from src none = none
tool_from src (some m) = some (record { source = src; manifest = m })

-- The first source, in the configured order, that has a tool of the name.
unfoldable pub first_source : Env → FilePath → List String → String → Option EffectiveTool
first_source env data_dir [] n = none
first_source env data_dir (s ∷ ss) n =
    or_else (tool_from s (find_key manifest_name n (directory_tools env data_dir s)))
      (first_source env data_dir ss n)

unfoldable pub first_of : String → List Manifest → String → Option EffectiveTool
first_of src ms k = tool_from src (find_key manifest_name k ms)

-- A shadow is a manifest that its source has, and names the tool that stands in the list.
pub record IsShadow (has : String → Manifest → Type 0) (find : String → Option EffectiveTool)
    (sh : ShadowedTool) : Type 0 where
  pub winner : EffectiveTool
  pub is_found : find sh.tool_name ≡ some winner
  pub winner_source : winner.source ≡ sh.winner_source
  pub winner_version : winner.manifest.version ≡ sh.winner_version
  pub dropped : Manifest
  pub has_it : has sh.shadowed_source dropped
  pub same_name : dropped.name ≡ sh.tool_name
  pub same_version : dropped.version ≡ sh.shadowed_version

module _ (has : String → Manifest → Type 0) where
  pub record IsMerged (st : Merge) (first : String → Option EffectiveTool) (n : ℕ) : Type 0 where
    pub indexed : Indexes tool_name_of st.winner_idx st.merged
    pub distinct : DistinctKeys tool_name_of st.merged
    pub finds : (k : String) → find_key tool_name_of k st.merged ≡ first k
    pub shadowed : Every (IsShadow has (λ k. find_key tool_name_of k st.merged)) st.shadows
    pub counted : length st.merged + length st.shadows ≡ n

  pub empty-IsMerged : IsMerged empty_merge (λ k. none) 0
  empty-IsMerged = record {
    indexed = empty-Indexes tool_name_of;
    distinct = tt;
    finds = λ k. refl;
    shadowed = tt;
    counted = refl;
  }

  pub IsShadow-ext :
      (f g : String → Option EffectiveTool) (shs : List ShadowedTool)
      → ((k : String) (t : EffectiveTool) → f k ≡ some t → g k ≡ some t)
      → Every (IsShadow has f) shs
      → Every (IsShadow has g) shs
  IsShadow-ext f g [] e h = tt
  IsShadow-ext f g (sh ∷ shs) e (rest, h) = (
    IsShadow-ext f g shs e rest,
    record {
      winner = h.winner;
      is_found = e sh.tool_name h.winner h.is_found;
      winner_source = h.winner_source;
      winner_version = h.winner_version;
      dropped = h.dropped;
      has_it = h.has_it;
      same_name = h.same_name;
      same_version = h.same_version;
    },
  )

  merge_one-IsMerged :
      (src : String) (m : Manifest) (st : Merge) (first : String → Option EffectiveTool) (n : ℕ)
      → has src m
      → IsMerged st first n
      → IsMerged
          (merge_one src m st)
          (λ k.
            or_else
              (first k)
              (if m.name == k then some (record { source = src; manifest = m }) else none))
          (suc n)
  unfolding merge_one
  merge_one-IsMerged src m st first n own h = elim (Option-cases (st.winner_idx m.name)) [
    | inl e ↦
        let fresh : find_key tool_name_of m.name st.merged ≡ none = h.indexed.absent m.name e in
        rw (merge_one, e)
          record {
            indexed =
                put-Indexes tool_name_of st.winner_idx st.merged
                  (record { source = src; manifest = m }) h.indexed fresh;
            distinct =
                DistinctKeys-snoc tool_name_of st.merged (record { source = src; manifest = m })
                  h.distinct (find_none-has_key tool_name_of m.name st.merged fresh);
            finds = λ k.
                find_key-append tool_name_of k st.merged
                  (record { source = src; manifest = m } ∷ [])
                ∙ rw (h.finds k) refl;
            shadowed =
                IsShadow-ext _ _ st.shadows
                  (λ k t f.
                    find_key-append tool_name_of k st.merged
                      (record { source = src; manifest = m } ∷ [])
                    ∙ rw f refl)
                  h.shadowed;
            counted = omega (
              arith,
              h.counted,
              length-append st.merged (record { source = src; manifest = m } ∷ []),
            );
          }
    | inr (i, e) ↦
        let (winner, at_i, found) = h.indexed.present m.name i e in
        let shadow : ShadowedTool = record {
          tool_name = m.name;
          winner_source = winner.source;
          winner_version = winner.manifest.version;
          shadowed_source = src;
          shadowed_version = m.version;
        } in
        let is_shadow : IsShadow has (λ k. find_key tool_name_of k st.merged) shadow = record {
          winner = winner;
          is_found = found;
          winner_source = refl;
          winner_version = refl;
          dropped = m;
          has_it = own;
          same_name = refl;
          same_version = refl;
        } in
        rw (merge_one, e, at_i)
          record {
            indexed = h.indexed;
            distinct = h.distinct;
            finds = λ k.
                find_key-again tool_name_of st.merged (record { source = src; manifest = m }) winner
                  found k
                ∙ (find_key-append tool_name_of k st.merged
                      (record { source = src; manifest = m } ∷ [])
                    ∙ rw (h.finds k) refl);
            shadowed =
                Every-append (IsShadow has (λ k. find_key tool_name_of k st.merged)) st.shadows
                  (shadow ∷ []) h.shadowed (tt, is_shadow);
            counted = omega (arith, h.counted, length-append st.shadows (shadow ∷ []));
          }
  ]

  pub IsMerged-ext :
      (st : Merge) (f g : String → Option EffectiveTool) (n n' : ℕ)
      → ((k : String) → f k ≡ g k)
      → n ≡ n'
      → IsMerged st f n
      → IsMerged st g n'
  IsMerged-ext st f g n n' e e' h = record {
    indexed = h.indexed;
    distinct = h.distinct;
    finds = λ k. h.finds k ∙ e k;
    shadowed = h.shadowed;
    counted = h.counted ∙ e';
  }

  pub merge_source-IsMerged :
      (src : String) (ms : List Manifest) (st : Merge) (first : String → Option EffectiveTool)
      (n : ℕ)
      → Every (has src) ms
      → IsMerged st first n
      → IsMerged
          (merge_source src ms st)
          (λ k. or_else (first k) (first_of src ms k))
          (n + length ms)
  unfolding merge_source first_of
  merge_source-IsMerged src [] st first n own h =
      IsMerged-ext st first _ n (n + 0) (λ k. sym (or_else-none (first k))) (omega arith) h
  merge_source-IsMerged src (m ∷ ms) st first n (rest, own) h =
      IsMerged-ext _ _ _ (suc n + length ms) (n + suc (length ms))
        (λ k.
          or_else_assoc (first k) _ _
          ∙ ap (or_else (first k))
              (elim (Bool-cases (m.name == k)) [ inl e ↦ rw e refl | inr e ↦ rw e refl ]))
        (omega arith)
        (merge_source-IsMerged src ms (merge_one src m st) _ (suc n) rest
          (merge_one-IsMerged src m st first n own h))
